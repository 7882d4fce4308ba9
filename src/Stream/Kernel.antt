-- ===== src/Stream/Kernel.antt =====
-- read(2) and write(2) on a stream socket. The kernel is a parameter: a state, one function for
-- each call, and what POSIX documents of it.
use my_unp.Prelude.{ℕ, ◌≤◌, ◌<◌, ◌≡◌, List, [], ◌++◌, take, length}

-- What read(fd, ptr, n) hands back: bytes ([] is end of file), or -1 with errno.
pub data ReadReply : Type 0 where
  got : List ℕ → ReadReply
  read_intr : ReadReply
  read_error : ℕ → ReadReply

-- What write(fd, ptr, n) hands back: a count, or -1 with errno.
pub data WriteReply : Type 0 where
  wrote : ℕ → WriteReply
  write_intr : WriteReply
  write_error : ℕ → WriteReply

-- The calls; `pending` is the bytes that the peer sent and nobody read yet, `sent` the bytes
-- accepted for the peer, `patience` bounds the signals still to come.
pub record Kernel (S : Type 0) : Type 0 where
  pub read : S → ℕ → ReadReply × S
  pub write : S → List ℕ → WriteReply × S
  pub pending : S → List ℕ
  pub sent : S → List ℕ
  pub patience : S → ℕ

-- read hands over a prefix of the pending bytes, at most as many as asked for; it hands over
-- none only at end of file; a signal or an error consumes nothing, and the signals run out.
pub record ReadLaws {S : Type 0} (k : Kernel S) : Type 0 where
  pub got_prefix :
      (s : S) (n : ℕ) (bs : List ℕ)
      → (k.read s n).0 ≡ got bs
      → (k.pending s ≡ bs ++ k.pending (k.read s n).1)
        × (length bs ≤ n)
        × (k.patience (k.read s n).1 ≤ k.patience s)
  pub got_nil : (s : S) (n : ℕ) → (k.read s n).0 ≡ got [] → 0 < n → k.pending (k.read s n).1 ≡ []
  pub intr_keeps :
      (s : S) (n : ℕ)
      → (k.read s n).0 ≡ read_intr
      → (k.pending s ≡ k.pending (k.read s n).1) × (k.patience (k.read s n).1 < k.patience s)
  pub error_keeps :
      (s : S) (n e : ℕ) → (k.read s n).0 ≡ read_error e → k.pending s ≡ k.pending (k.read s n).1

-- write accepts a prefix of what it is given; a signal or an error accepts nothing.
pub record WriteLaws {S : Type 0} (k : Kernel S) : Type 0 where
  pub wrote_prefix :
      (s : S) (bs : List ℕ) (n : ℕ)
      → (k.write s bs).0 ≡ wrote n
      → (k.sent (k.write s bs).1 ≡ k.sent s ++ take n bs)
        × (n ≤ length bs)
        × (k.patience (k.write s bs).1 ≤ k.patience s)
  pub write_intr_keeps :
      (s : S) (bs : List ℕ)
      → (k.write s bs).0 ≡ write_intr
      → (k.sent (k.write s bs).1 ≡ k.sent s) × (k.patience (k.write s bs).1 < k.patience s)
  pub write_error_keeps :
      (s : S) (bs : List ℕ) (e : ℕ)
      → (k.write s bs).0 ≡ write_error e
      → k.sent (k.write s bs).1 ≡ k.sent s
