-- ===== src/Socket/Streaming.antt =====
-- sylar/streams/socket_stream.cpp: a stream over a Socket, the sending of a ByteArray through it
-- and the reading into one.
use sylar_leo.Base.{
  ℕ, ◌/◌, ◌≤◌, ◌<◌, ◌≡◌, refl, ap, ◌∙◌, Bool, true, false, Option, none, some, List, [], ◌∷◌, ◌++◌,
  arith, if◌then◌else◌, length, take, drop, flatten,
}
use sylar_leo.Base.Text.{Text}
use sylar_leo.ByteArray.{add_capacity, ByteArray, M, Outcome, ok, undefined}
use sylar_leo.ByteArray.Validity.{add_capacity-Grown, IsValid, unread, contents}
use sylar_leo.ByteArray.Offering.{get_write_buffers-Grown}
use sylar_leo.ByteArray.Filling.{move_position, receive, Received, receive-Received}
use sylar_leo.ByteArray.Buffers.{get_write_buffers, Iovec, node_at, gather, get_read_buffers}
use sylar_leo.Socket.{Socket}
use sylar_leo.Socket.Transfer.{Message, transfer}

-- `socket` is none for the null pointer.
pub record SocketStream : Type 0 where
  pub socket : Option Socket
  pub owner : Bool

-- `SocketStream::isConnected`.
unfoldable pub stream_is_connected : SocketStream → Bool
stream_is_connected s = elim s.socket [ none ↦ false | some k ↦ k.is_connected ]

-- What a transfer over the socket returns: `none` is -1, from the stream, the Socket or the system.
abbrev pub joined : {A : Type 0} → Option (Option A) → Option A
joined none = none
joined (some r) = r

unfoldable pub stream_transfer :
    {A : Type 0} → (system_call : Option ℕ → Message → Option A) → Message → SocketStream → Option A
stream_transfer system_call msg s = elim s.socket [
  | none ↦ none
  | some k ↦ joined (transfer system_call msg k)
]

-- The memory of each buffer, with the blocks from `m_cur` on.
unfoldable pub pieces : List (List ℕ) → List Iovec → List Text
pieces nodes [] = []
pieces nodes (v ∷ vs) = take v.len (drop v.offset (node_at v.block nodes)) ∷ pieces nodes vs

abbrev pub blocks_from : (cur : Option ℕ) → ByteArray → List (List ℕ)
blocks_from none b = []
blocks_from (some i) b = drop i b.chain

-- `write(ByteArray::ptr ba, size_t length)`. Where there is no buffer, `&iovs[0]` is taken as an address that
-- nobody reads.
unfoldable pub write_byte_array :
    (sendmsg : Option ℕ → Message → Option ℕ) → (len : ℕ) → SocketStream → M (Option ℕ)
write_byte_array sendmsg len s b =
    let sent : Outcome (Option ℕ) = elim (get_read_buffers len b) [
      | none ↦ undefined
      | some vs ↦
          move_position
            (stream_transfer sendmsg (record { iov = pieces (blocks_from b.cur b) vs; name = none })
              s)
            b
    ] in
    if stream_is_connected s then sent else ok none b

-- The buffers are received into, and the position is moved.
abbrev pub read_buffers :
    (recvmsg : Option ℕ → Message → Option Text)
    → SocketStream
    → ByteArray × Option (List Iovec)
    → Outcome (Option ℕ)
read_buffers recvmsg s (g, none) = undefined
read_buffers recvmsg s (g, some vs) =
    receive vs
      (stream_transfer recvmsg (record { iov = pieces (blocks_from g.cur g) vs; name = none }) s) g

-- `read(ByteArray::ptr ba, size_t length)`: what `recvmsg` gives are the bytes that it received.
unfoldable pub read_byte_array :
    (recvmsg : Option ℕ → Message → Option Text) → (len : ℕ) → SocketStream → M (Option ℕ)
read_byte_array recvmsg len s b =
    let received_into = read_buffers recvmsg s (get_write_buffers len b) in
    if stream_is_connected s then received_into else ok none b

flatten-pieces :
    (nodes : List (List ℕ)) (vs : List Iovec) → flatten (pieces nodes vs) ≡ gather nodes vs
unfolding pieces gather
flatten-pieces nodes [] = refl
flatten-pieces nodes (v ∷ vs) =
    ap (λ l. take v.len (drop v.offset (node_at v.block nodes)) ++ l) (flatten-pieces nodes vs)

-- What is left of a ByteArray after a call that returned: all of it, or all but what was sent.
pub data Delivered (b : ByteArray) : Option ℕ → Outcome (Option ℕ) → Type 0 where
  failed : Delivered b none (ok none b)
  delivered :
      {n : ℕ} {b' : ByteArray}
      → IsValid b'
      → contents b' ≡ contents b
      → unread b' ≡ drop n (unread b)
      → Delivered b (some n) (ok (some n) b')

stream_transfer-connected :
    {A : Type 0} (system_call : Option ℕ → Message → Option A) (msg : Message) (owner : Bool)
    (k : Socket)
    → k.is_connected ≡ true
    → stream_transfer system_call msg (record { socket = some k; owner = owner })
      ≡ system_call k.sock msg
unfolding stream_transfer transfer
stream_transfer-connected system_call msg owner k connected =
    ap (λ c. joined (if c then some (system_call k.sock msg) else none)) connected

read_byte_array-connected :
    (recvmsg : Option ℕ → Message → Option Text) (len : ℕ) (s : SocketStream) (b g : ByteArray)
    (vs : List Iovec)
    → stream_is_connected s ≡ true
    → get_write_buffers len b ≡ (g, some vs)
    → read_byte_array recvmsg len s b
      ≡ receive vs
          (stream_transfer recvmsg
            (record { iov = pieces (blocks_from g.cur g) vs; name = none })
            s)
          g
unfolding read_byte_array
read_byte_array-connected recvmsg len s b g vs connected e =
    rw connected (ap (read_buffers recvmsg s) e)

-- For a valid ByteArray, a length that is not 0, a stream over a connected socket, and a `recvmsg` that
-- receives no more bytes than its buffers have room for: `read(ba, length)` makes one call of `recvmsg`,
-- whose buffers have room for at most `length` bytes, and returns the number of bytes received. They are
-- then written at the position, as by `write`; after an error the bytes and the position are kept.
pub read_byte_array_lem :
    (recvmsg : Option ℕ → Message → Option Text) (len : ℕ) (owner : Bool) (k : Socket)
    (b : ByteArray)
    → ((msg : Message) (t : Text)
        → recvmsg k.sock msg ≡ some t
        → length t ≤ length (flatten msg.iov))
    → IsValid b
    → 0 < len
    → k.is_connected ≡ true
    → (iov : List Text) × (length (flatten iov) ≤ len)
      × Received b
          (recvmsg k.sock (record { iov = iov; name = none }))
          (read_byte_array recvmsg len (record { socket = some k; owner = owner }) b)
unfolding stream_is_connected
read_byte_array_lem recvmsg len owner k b fits v more connected =
    let g = add_capacity len b in
    let w = add_capacity-Grown len b v in
    let here : g.cur ≡ some (g.position / g.base_size) =
      ground (arith, w.valid.at_cur, w.fits, more) in
    let (vs, e, found, held) = get_write_buffers-Grown len b v more in
    let nodes = blocks_from g.cur g in
    let msg : Message = record { iov = pieces nodes vs; name = none } in
    let whole : flatten (pieces nodes vs) ≡ gather (drop (g.position / g.base_size) g.chain) vs =
      flatten-pieces nodes vs ∙ ap (λ c. gather (blocks_from c g) vs) here in
    let stream : SocketStream = record { socket = some k; owner = owner } in
    let room : length (flatten (pieces nodes vs)) ≤ len = omega (arith, ap length whole, held) in
    (
      pieces nodes vs,
      room,
      rw
          (
            read_byte_array-connected recvmsg len stream b g vs connected e,
            stream_transfer-connected recvmsg msg owner k connected,
          )
          (receive-Received len b g vs (recvmsg k.sock msg) w more
            (λ t r. omega (arith, fits msg t r, room)) found),
    )
