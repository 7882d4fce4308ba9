-- ===== src/Stream/View.antt =====
-- One answer of a lawful read(2) or write(2), with what the laws say of it: for case splits.
use my_unp.Prelude.{ℕ, suc, ◌≤◌, ◌<◌, ◌≡◌, refl, List, [], ◌∷◌, ◌++◌, length, take, arith}
use my_unp.Stream.Kernel.{
  Kernel, ReadLaws, ReadReply, got, read_intr, read_error, WriteLaws, WriteReply, wrote, write_intr,
  write_error,
}

-- The answers to a read of `suc m` bytes; `s'` is the state after it.
pub data ReadView {S : Type 0} (k : Kernel S) (s : S) (m : ℕ) (r : ReadReply) (s' : S)
    : Type 0 where
  eof : r ≡ got [] → k.pending s ≡ k.pending s' → k.pending s' ≡ [] → ReadView k s m r s'
  bytes :
      (b : ℕ) (bs : List ℕ)
      → r ≡ got (b ∷ bs)
      → k.pending s ≡ (b ∷ bs) ++ k.pending s'
      → length (b ∷ bs) ≤ suc m
      → k.patience s' ≤ k.patience s
      → ReadView k s m r s'
  intr :
      r ≡ read_intr
      → k.pending s ≡ k.pending s'
      → k.patience s' < k.patience s
      → ReadView k s m r s'
  error : (e : ℕ) → r ≡ read_error e → k.pending s ≡ k.pending s' → ReadView k s m r s'

pub read_view :
    {S : Type 0} (k : Kernel S)
    → ReadLaws k
    → (s : S) (m : ℕ) → ReadView k s m (k.read s (suc m)).0 (k.read s (suc m)).1
read_view {S} k laws s m = go (k.read s (suc m)).0 refl
  where
    s' : S
    s' = (k.read s (suc m)).1

    go : (r : ReadReply) → (k.read s (suc m)).0 ≡ r → ReadView k s m (k.read s (suc m)).0 s'
    go (got []) q =
        eof q (laws.got_prefix s (suc m) [] q).0 (laws.got_nil s (suc m) q (omega arith))
    go (got (b ∷ bs)) q = let h = laws.got_prefix s (suc m) (b ∷ bs) q in bytes b bs q h.0 h.1 h.2
    go read_intr q = let h = laws.intr_keeps s (suc m) q in intr q h.0 h.1
    go (read_error e) q = error e q (laws.error_keeps s (suc m) e q)

-- The answers to a write of the bytes `bs`.
pub data WriteView {S : Type 0} (k : Kernel S) (s : S) (bs : List ℕ) (r : WriteReply) (s' : S)
    : Type 0 where
  some_bytes :
      (n : ℕ)
      → r ≡ wrote n
      → k.sent s' ≡ k.sent s ++ take n bs
      → n ≤ length bs
      → k.patience s' ≤ k.patience s
      → WriteView k s bs r s'
  write_signal :
      r ≡ write_intr → k.sent s' ≡ k.sent s → k.patience s' < k.patience s → WriteView k s bs r s'
  write_fault : (e : ℕ) → r ≡ write_error e → k.sent s' ≡ k.sent s → WriteView k s bs r s'

pub write_view :
    {S : Type 0} (k : Kernel S)
    → WriteLaws k
    → (s : S) (bs : List ℕ) → WriteView k s bs (k.write s bs).0 (k.write s bs).1
write_view {S} k laws s bs = go (k.write s bs).0 refl
  where
    go :
        (r : WriteReply) → (k.write s bs).0 ≡ r → WriteView k s bs (k.write s bs).0 (k.write s bs).1
    go (wrote n) q = let h = laws.wrote_prefix s bs n q in some_bytes n q h.0 h.1 h.2
    go write_intr q = let h = laws.write_intr_keeps s bs q in write_signal q h.0 h.1
    go (write_error e) q = write_fault e q (laws.write_error_keeps s bs e q)
