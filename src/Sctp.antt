-- ===== src/Sctp.antt =====
-- my-src/Chapter-23/sctp_pdapi_rcv.c: a message that comes in pieces, gathered in a growing buffer.
pub mod Bounds
mod Tests
use my_unp.Prelude.{
  ℕ, zero, suc, ◌+◌, ◌-◌, List, [], ◌∷◌, ◌++◌, Bool, true, false, ltb, if◌then◌else◌, length, ◌&&◌,
  not,
}

-- SCTP_PDAPI_INCR_SZ, SCTP_PDAPI_NEED_MODE_THRESHOLD
abbrev pub incr_sz : ℕ
incr_sz = 65535

abbrev pub threshold : ℕ
threshold = 1024

-- One call of sctp_recvmsg: it is given room for `left` bytes at offset `at` of an allocation of
-- `allocated` bytes.
pub record Offer : Type 0 where
  pub at : ℕ
  pub left : ℕ
  pub allocated : ℕ

-- The static variables: the bytes really allocated at sctp_pdapi_readbuf (0 where it is NULL) and
-- sctp_pdapi_rdbuf_sz, with a log of the calls of sctp_recvmsg.
pub record Buffer : Type 0 where
  pub allocated : ℕ
  pub rdbuf_sz : ℕ
  pub offers : List Offer

-- What sctp_recvmsg hands back, given the room: the bytes and whether MSG_EOR is set, or -1.
pub data Recv : Type 0 where
  piece : List ℕ → Bool → Recv
  recv_error : Recv

-- The answers of one step: of realloc and of sctp_recvmsg.
pub record Kernel : Type 0 where
  pub realloc_ok : Bool
  pub recvmsg : ℕ → Recv

-- How the function ends: with the message, or with NULL; or it waits for the next piece.
pub data Result : Type 0 where
  message : List ℕ → Buffer → Result
  null : Buffer → Result
  waiting : List ℕ → Buffer → Result

-- `if (sctp_pdapi_readbuf == NULL)`, once malloc has succeeded.
unfoldable pub allocate : Buffer → Buffer
allocate b = elim (b.allocated) [
  | zero ↦ record b { allocated = incr_sz; rdbuf_sz = incr_sz }
  | suc n ↦ b
]

-- A call of sctp_recvmsg at offset `at` with room for `left`.
unfoldable pub offer : ℕ → ℕ → Buffer → Buffer
offer at left b = record b {
  offers = b.offers ++ (record { at = at; left = left; allocated = b.allocated } ∷ []);
}

-- The growth in the loop: realloc to SCTP_PDAPI_INCR_SZ bytes, and the size counted up.
unfoldable pub grow : ℕ → Buffer → Buffer
grow at b =
    if ltb (b.rdbuf_sz - at) threshold
    then record b { allocated = incr_sz; rdbuf_sz = b.rdbuf_sz + incr_sz }
    else b

-- sctp_recvmsg has answered in the loop: an error, the last piece, or one with more to come, for
-- which `next` goes on.
abbrev pub on_piece : List ℕ → Buffer → (List ℕ → Result) → Recv → Result
on_piece bytes b next recv_error = null b
on_piece bytes b next (piece bs true) = message (bytes ++ bs) b
on_piece bytes b next (piece bs false) = next (bytes ++ bs)

-- The buffer with the room behind `at` offered to sctp_recvmsg.
abbrev pub ready : ℕ → Buffer → Buffer
ready at b = offer at ((grow at b).rdbuf_sz - at) (grow at b)

-- `while ((*msg_flags & MSG_EOR) == 0)`, with the bytes gathered so far. A realloc that fails leaves
-- sctp_pdapi_readbuf NULL.
unfoldable pub gather : List Kernel → List ℕ → Buffer → Result
gather [] bytes b = waiting bytes b
gather (k ∷ ks) bytes b =
    let more =
      on_piece bytes (ready (length bytes) b) (λ m. gather ks m (ready (length bytes) b))
        (k.recvmsg ((grow (length bytes) b).rdbuf_sz - length bytes)) in
    if ltb (b.rdbuf_sz - length bytes) threshold && not k.realloc_ok
    then null (record b { allocated = 0 })
    else more

-- The first sctp_recvmsg has answered.
abbrev pub on_first : List Kernel → Buffer → Recv → Result
on_first ks b recv_error = null b
on_first ks b (piece [] eor) = null b
on_first ks b (piece (x ∷ xs) true) = message (x ∷ xs) b
on_first ks b (piece (x ∷ xs) false) = gather ks (x ∷ xs) b

-- `sctp_pdapi_readbuf == NULL`
abbrev pub is_null : Buffer → Bool
is_null b = ltb (b.allocated) 1

-- pdapi_recvmsg: whether malloc succeeds, and `first`, the answer of its first sctp_recvmsg.
unfoldable pub pdapi_recvmsg : Bool → (ℕ → Recv) → List Kernel → Buffer → Result
pdapi_recvmsg malloc_ok first ks b =
    if is_null b && not malloc_ok
    then null b
    else on_first ks (offer 0 ((allocate b).rdbuf_sz) (allocate b)) (first ((allocate b).rdbuf_sz))
