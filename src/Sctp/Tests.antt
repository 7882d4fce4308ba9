-- ===== src/Sctp/Tests.antt =====
-- Runs of sctp_pdapi_rcv.c.
use my_unp.Prelude.{ℕ, ◌+◌, ◌-◌, ◌≡◌, ◌<◌, refl, List, [], ◌∷◌, true, false, inl, arith}
use my_unp.Sctp.{
  incr_sz, Buffer, Recv, piece, Kernel, Result, message, null, waiting, allocate, offer, grow,
  gather, pdapi_recvmsg,
}
use my_unp.Sctp.Bounds.{Stays, grow_overruns, pdapi_recvmsg-Stays}

abbrev unallocated : Buffer
unallocated = record { allocated = 0; rdbuf_sz = 0; offers = [] }

-- Two pieces, the second the last.
abbrev first : ℕ → Recv
first left = piece (7 ∷ 8 ∷ []) false

abbrev last : Kernel
last = record { realloc_ok = true; recvmsg = λ left. piece (9 ∷ []) true }

gathered : Result → List ℕ
gathered (message m b) = m
gathered (null b) = []
gathered (waiting m b) = []

two_pieces : gathered (pdapi_recvmsg true first (last ∷ []) unallocated) ≡ 7 ∷ 8 ∷ 9 ∷ []
unfolding pdapi_recvmsg allocate offer grow gather gathered
two_pieces = refl

no_memory : pdapi_recvmsg false first (last ∷ []) unallocated ≡ null unallocated
unfolding pdapi_recvmsg
no_memory = refl

pdapi_recvmsg-Stays_example :
    Stays ((allocate unallocated).rdbuf_sz) (pdapi_recvmsg true first (last ∷ []) unallocated)
pdapi_recvmsg-Stays_example = pdapi_recvmsg-Stays true first (last ∷ []) unallocated (inl refl) tt

abbrev nearly_full : Buffer
nearly_full = record { allocated = 65535; rdbuf_sz = 65535; offers = [] }

second_overruns :
    ((grow 65000 nearly_full).allocated ≡ incr_sz)
    × ((grow 65000 nearly_full).allocated < 65000 + ((grow 65000 nearly_full).rdbuf_sz - 65000))
second_overruns = grow_overruns 65000 nearly_full (omega arith) (omega arith) (omega arith)
