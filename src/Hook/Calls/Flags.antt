-- ===== src/Hook/Calls/Flags.antt =====
-- The flags of a descriptor, as the caller and as the system have them.
use sylar_leo.Base.{ℕ, ◌≡◌, refl, sym, ◌∙◌, Bool, some, arith, if◌then◌else◌}
use sylar_leo.FdManager.{failed, FdCtx, FdManager, entry, update_ctx}
use sylar_leo.FdManager.Table.{get_entry, entry-update_ctx}
use sylar_leo.Hook.{context}
use sylar_leo.Hook.Calls.{with_nonblock, without_nonblock}

pub context_entry : (fd : ℕ) (m : FdManager) → context fd m ≡ entry fd m
unfolding context
context_entry fd m = rw (context, get_entry fd failed m) refl

-- The context of a changed descriptor.
pub context-update_ctx :
    (fd : ℕ) (ctx ctx' : FdCtx) (m : FdManager)
    → context fd m ≡ some ctx
    → context fd (update_ctx fd ctx' m) ≡ some ctx'
context-update_ctx fd ctx ctx' m h =
    context_entry fd (update_ctx fd ctx' m)
    ∙ entry-update_ctx fd fd ctx ctx' m (sym (context_entry fd m) ∙ h)
    ∙ ground arith

abbrev choose : Bool → ℕ → ℕ
choose b arg = if b then with_nonblock arg else without_nonblock arg
