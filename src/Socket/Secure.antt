-- ===== src/Socket/Secure.antt =====
-- sylar/socket.cpp: the class SSLSocket. What OpenSSL answers is an argument, or a function on a state
-- of the connection.
use sylar_leo.Base.{
  ℕ, ◌%◌, ◌^◌, ◌<◌, ltb, subst, ◌+◌, ◌≤◌, ◌≡◌, refl, sym, ap, ◌∙◌, Bool, true, false, not, Option,
  List, [], ◌∷◌, ◌++◌, arith, ◌==◌, if◌then◌else◌, length, length-append, take, take-append_le,
  take-append_add, take_all, length-take, flatten, Bool-cases, inl, inr,
}
use sylar_leo.Base.Text.{Text}
use sylar_leo.FdManager.{FdCtx}
use sylar_leo.Socket.{Address, Socket, System, Answers, connect, init}

-- `has_ssl` and `has_ctx`: m_ssl and m_ctx are set.
pub record SslSocket : Type 0 where
  pub base : Socket
  pub has_ssl : Bool
  pub has_ctx : Bool

-- The answer of SSL_write or SSL_read: a positive number of bytes, or zero or an error.
pub data SslReply : Type 0 where
  moved : ℕ → SslReply
  refused : SslReply

-- What a transfer of several buffers returns: the total, or the reply that is not positive. `overflow`:
-- the `int` of the total overflows, which is undefined.
pub data SslResult : Type 0 where
  total : ℕ → SslResult
  refusal : SslResult
  overflow : SslResult

-- The state of the connection, the bytes it took, and the result.
abbrev pub SslRun {ℓ} : Type ℓ → Type ℓ
SslRun S = S × (Text × SslResult)

-- The bytes of one SSL_write, before those of the calls after it.
abbrev pub after_write {ℓ} : {S : Type ℓ} → Text → SslRun S → SslRun S
after_write b (s, (more, r)) = (s, (b ++ more, r))

-- A `size_t` as an `int`, by its 32 bits.
abbrev pub int_bits : ℕ → ℕ
int_bits len = len % 2 ^ 32

-- The end of a turn, with the new total: whether the loop goes on.
abbrev pub turn_end {ℓ} :
    {S : Type ℓ} → (sum : ℕ) → (whole : Bool) → S → Text → (rest : SslRun S) → SslRun S
turn_end sum whole s b rest =
    if not (ltb sum (2 ^ 31))
    then (s, (b, overflow))
    else if whole
    then after_write b rest
    else (s, (b, total sum))

-- The loop of `send` over the buffers that are left, where m_ssl is set. `ssl_write` gets the buffer and
-- the 32 bits of its length.
pub ssl_send_from {ℓ} :
    {S : Type ℓ}
    → (ssl_write : S → Text → ℕ → S × SslReply) → (so_far : ℕ) → S
    → List Text
    → SslRun S
ssl_send_from ssl_write so_far s [] = (s, ([], total so_far))
ssl_send_from ssl_write so_far s (buffer ∷ buffers) =
    let num = int_bits (length buffer) in
    let (s', reply) = ssl_write s buffer num in
    elim reply [
      | refused ↦ (s', ([], refusal))
      | moved n ↦
          turn_end (so_far + n) (n == num) s' (take n buffer)
            (ssl_send_from ssl_write (so_far + n) s' buffers)
    ]

-- `send` of several buffers.
unfoldable pub ssl_send {ℓ} :
    {S : Type ℓ} → (ssl_write : S → Text → ℕ → S × SslReply) → S → List Text → SslRun S
unfolding ssl_send_from
ssl_send ssl_write s buffers = ssl_send_from ssl_write 0 s buffers

-- The connection takes at least one byte and at most `num`, or refuses.
pub data Takes (num : ℕ) : SslReply → Type 0 where
  part : {n : ℕ} → 1 ≤ n → n ≤ num → Takes num (moved n)
  none_taken : Takes num refused

-- What a transfer that had `so_far` bytes before returns for the bytes taken since.
pub data Counts (so_far : ℕ) (taken : Text) : SslResult → Type 0 where
  all_counted : {n : ℕ} → n ≡ so_far + length taken → Counts so_far taken (total n)
  refused_after : Counts so_far taken refusal

-- The bytes taken are a prefix of the buffers, as long as the total returned, which does not overflow.
pub record IsPrefix {ℓ} {S : Type ℓ} (so_far : ℕ) (buffers : List Text) (r : SslRun S)
    : Type ℓ where
  pub prefix : r.1.0 ≡ take (length r.1.0) (flatten buffers)
  pub counted : Counts so_far r.1.0 r.1.1

Counts-append :
    (so_far n : ℕ) (b more : Text) (r : SslResult)
    → length b ≡ n
    → Counts (so_far + n) more r
    → Counts so_far (b ++ more) r
Counts-append so_far n b more _ h (all_counted e) =
    all_counted (omega (arith, e, h, length-append b more))
Counts-append so_far n b more _ h refused_after = refused_after

IsPrefix-all {ℓ} :
    {S : Type ℓ} (so_far : ℕ) (buffer : Text) (buffers : List Text) (r : SslRun S)
    → IsPrefix (so_far + length buffer) buffers r
    → IsPrefix so_far (buffer ∷ buffers) (after_write buffer r)
IsPrefix-all so_far buffer buffers (s, (more, r)) h = record {
  prefix =
      ap (λ t. buffer ++ t) h.prefix
      ∙ sym (take-append_add buffer (flatten buffers) (length more))
      ∙ ap (λ k. take k (buffer ++ flatten buffers)) (sym (length-append buffer more));
  counted = Counts-append so_far (length buffer) buffer more r refl h.counted;
}

length-take_le : (n : ℕ) (b : Text) → n ≤ length b → length (take n b) ≡ n
length-take_le n b h = let e = length-take n b in omega (arith, e, h)

IsPrefix-part {ℓ} :
    {S : Type ℓ} (s : S) (so_far n : ℕ) (buffer : Text) (buffers : List Text)
    → n ≤ length buffer
    → IsPrefix {S = S} so_far (buffer ∷ buffers) (s, (take n buffer, total (so_far + n)))
IsPrefix-part s so_far n buffer buffers h = record {
  prefix =
      sym (take-append_le n buffer (flatten buffers) h)
      ∙ ap (λ k. take k (buffer ++ flatten buffers)) (sym (length-take_le n buffer h));
  counted = all_counted (omega (arith, length-take_le n buffer h));
}

-- One turn of the loop over a buffer whose length is an `int`.
turn-IsPrefix {ℓ} :
    {S : Type ℓ} (so_far : ℕ) (buffer : Text) (buffers : List Text) (s' : S) (n num : ℕ)
    (rest : SslRun S)
    → num ≡ length buffer
    → n ≤ num
    → so_far + length buffer < 2 ^ 31
    → (n ≡ length buffer → IsPrefix (so_far + n) buffers rest)
    → IsPrefix so_far (buffer ∷ buffers) (turn_end (so_far + n) (n == num) s' (take n buffer) rest)
turn-IsPrefix so_far buffer buffers s' n num rest same most small again =
    let fits : ltb (so_far + n) (2 ^ 31) ≡ true = ground (arith, same, most, small) in
    elim (Bool-cases (n == num)) [
      | inl whole ↦
          let e : n ≡ length buffer = ground (arith, same, whole) in
          rw (fits, whole, take_all n buffer (omega (arith, e)))
            (IsPrefix-all so_far buffer buffers rest
              (subst (λ k. IsPrefix (so_far + k) buffers rest) e (again e)))
      | inr cut ↦
          rw (fits, cut) (IsPrefix-part s' so_far n buffer buffers (omega (arith, same, most)))
    ]

ssl_send_from-IsPrefix {ℓ} :
    {S : Type ℓ} (ssl_write : S → Text → ℕ → S × SslReply)
    → ((s : S) (buffer : Text) (num : ℕ) → num < 2 ^ 31 → Takes num (ssl_write s buffer num).1)
    → (so_far : ℕ) (s : S) (buffers : List Text) → so_far + length (flatten buffers) < 2 ^ 31
    → IsPrefix so_far buffers (ssl_send_from ssl_write so_far s buffers)
unfolding ssl_send_from
ssl_send_from-IsPrefix ssl_write takes so_far s [] small = record {
  prefix = refl;
  counted = all_counted (omega arith);
}
ssl_send_from-IsPrefix {S = S} ssl_write takes so_far s (buffer ∷ buffers) small =
    let num = int_bits (length buffer) in
    let joined = length-append buffer (flatten buffers) in
    let same : num ≡ length buffer = omega (arith, small, joined) in
    go num same (ssl_write s buffer num) (takes s buffer num (omega (arith, same, small, joined)))
      (λ n s'. ssl_send_from-IsPrefix ssl_write takes (so_far + n) s' buffers)
  where
    go :
        (num : ℕ)
        → num ≡ length buffer
        → (r : S × SslReply) → Takes num r.1
        → ((n : ℕ) (s' : S)
            → so_far + n + length (flatten buffers) < 2 ^ 31
            → IsPrefix (so_far + n) buffers (ssl_send_from ssl_write (so_far + n) s' buffers))
        → IsPrefix {S = S} so_far (buffer ∷ buffers) (elim r.1 [
          | refused ↦ (r.0, ([], refusal))
          | moved n ↦
              turn_end
                (so_far + n)
                (n == num)
                r.0
                (take n buffer)
                (ssl_send_from ssl_write (so_far + n) r.0 buffers)
        ])
    go num same (s', refused) none_taken again = record { prefix = refl; counted = refused_after }
    go num same (s', moved n) (part one most) again =
        let joined = length-append buffer (flatten buffers) in
        turn-IsPrefix so_far buffer buffers s' n num
          (ssl_send_from ssl_write (so_far + n) s' buffers) same most (omega (arith, small, joined))
          (λ e. again n s' (omega (arith, small, joined, e)))

-- For buffers of less than 2^31 bytes in all, where SSL_write takes at least one byte and at most the
-- number it is given, or refuses: what `send` puts through is a prefix of the buffers joined, its `int`
-- total does not overflow, and a total that it returns is the length of that prefix.
pub ssl_send_lem {ℓ} :
    {S : Type ℓ} (ssl_write : S → Text → ℕ → S × SslReply)
    → ((s : S) (buffer : Text) (num : ℕ) → num < 2 ^ 31 → Takes num (ssl_write s buffer num).1)
    → (s : S) (buffers : List Text) → length (flatten buffers) < 2 ^ 31
    → IsPrefix 0 buffers (ssl_send ssl_write s buffers)
unfolding ssl_send
ssl_send_lem ssl_write takes s buffers small =
    ssl_send_from-IsPrefix ssl_write takes 0 s buffers (omega (arith, small))

-- The loop of `recv` over buffers of the lengths given, where m_ssl is set.
pub ssl_recv_from {ℓ} :
    {S : Type ℓ} → (ssl_read : S → ℕ → S × (Text × SslReply)) → (so_far : ℕ) → S → List ℕ → SslRun S
ssl_recv_from ssl_read so_far s [] = (s, ([], total so_far))
ssl_recv_from ssl_read so_far s (len ∷ lens) =
    let num = int_bits len in
    let (s', (b, reply)) = ssl_read s num in
    elim reply [
      | refused ↦ (s', ([], refusal))
      | moved n ↦
          turn_end (so_far + n) (n == num) s' b (ssl_recv_from ssl_read (so_far + n) s' lens)
    ]

unfoldable pub ssl_recv {ℓ} :
    {S : Type ℓ} → (ssl_read : S → ℕ → S × (Text × SslReply)) → S → List ℕ → SslRun S
unfolding ssl_recv_from
ssl_recv ssl_read s lens = ssl_recv_from ssl_read 0 s lens

-- `connect`, with whether the handshake ends well.
pub ssl_connect :
    Answers → (handshake : Bool) → Address → SslSocket × System → Bool × (SslSocket × System)
ssl_connect ans handshake addr (s, w) =
    let (connected, (base, w')) = connect ans addr (s.base, w) in
    if connected
    then (handshake, (record { base = base; has_ssl = true; has_ctx = true }, w'))
    else (false, (record s { base = base }, w'))

-- `init`, in the same way.
pub ssl_init :
    Answers
    → (fd : ℕ) → Option FdCtx
    → (handshake : Bool) → SslSocket × System
    → Bool × (SslSocket × System)
ssl_init ans fd ctx handshake (s, w) =
    let (ready, (base, w')) = init ans fd ctx (s.base, w) in
    if ready
    then (handshake, (record s { base = base; has_ssl = true }, w'))
    else (false, (record s { base = base }, w'))

-- `loadCertificates`, with what OpenSSL says of the chain, of the key and of the two together. The
-- context is new on every way out.
pub load_certificates : (chain key check : Bool) → SslSocket → Bool × SslSocket
load_certificates chain key check s =
    let s' = record s { has_ctx = true } in
    if not chain then (false, s') else if not key then (false, s') else (check, s')
