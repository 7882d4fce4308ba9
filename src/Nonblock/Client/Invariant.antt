-- ===== src/Nonblock/Client/Invariant.antt =====
-- No byte is lost, repeated or reordered, no buffer overflows, and the FIN goes out once.
use my_unp.Prelude.{
  ℕ, zero, suc, ◌+◌, ◌≤◌, ◌<◌, ◌≡◌, refl, ◌∙◌, sym, ap, List, [], ◌∷◌, ◌++◌, arith, Bool, true,
  false, ◌&&◌, ◌==◌, if◌then◌else◌, length, length-append, drop, take, append_assoc, Bool-cases,
  inl, inr, length-drop, take-append-drop,
}
use my_unp.Nonblock.Client.{
  maxline, InReply, got, read_would_block, read_error, OutReply, wrote, write_would_block,
  write_error, Kernel, Buffer, Client, Outcome, running, finished, terminated_prematurely, failed,
  room, unsent, select, consume, on_stdin, on_socket, on_stdout, on_to_socket,
}

-- What read(2) and write(2) document: no more bytes than asked for, no more than given.
pub record Honest (k : Kernel) : Type 0 where
  pub stdin_fits : (n : ℕ) (bs : List ℕ) → k.read_stdin n ≡ got bs → length bs ≤ n
  pub socket_fits : (n : ℕ) (bs : List ℕ) → k.read_socket n ≡ got bs → length bs ≤ n
  pub stdout_takes : (bs : List ℕ) (n : ℕ) → k.write_stdout bs ≡ wrote n → n ≤ length bs
  pub socket_takes : (bs : List ℕ) (n : ℕ) → k.write_socket bs ≡ wrote n → n ≤ length bs

-- A buffer through which `came` went in and `left` went out.
pub record Carries (b : Buffer) (came left : List ℕ) : Type 0 where
  pub pointers : b.out ≤ length b.stored
  pub in_bounds : length b.stored ≤ maxline
  pub rewound : b.out ≡ length b.stored → length b.stored ≡ 0
  pub account : came ≡ left ++ unsent b

-- Whether the FIN is due: end of file on stdin, and nothing left to send.
abbrev pub fin_due : Client → ℕ
fin_due c = if c.stdineof && (c.to.out == length c.to.stored) then 1 else 0

pub record Inv (c : Client) : Type 0 where
  pub outward : Carries c.to c.from_stdin c.to_socket
  pub inward : Carries c.fr c.from_socket c.to_stdout
  pub fin_once : c.shutdowns ≡ fin_due c

-- The read sets are asked for only with room, and stdin only before its end.
pub record Selected (c : Client) : Type 0 where
  pub stdin_open : c.rset_stdin ≡ true → (c.stdineof ≡ false) × (length c.to.stored < maxline)
  pub socket_room : c.rset_socket ≡ true → length c.fr.stored < maxline

drop-append : (n : ℕ) (xs ys : List ℕ) → n ≤ length xs → drop n (xs ++ ys) ≡ drop n xs ++ ys
drop-append zero xs ys h = refl
drop-append (suc n) [] ys h = absurd (omega arith)
drop-append (suc n) (x ∷ xs) ys h = drop-append n xs ys (omega arith)

drop-drop : (m n : ℕ) (xs : List ℕ) → drop n (drop m xs) ≡ drop (m + n) xs
drop-drop zero n xs = let e : 0 + n ≡ n = omega arith in rw e
drop-drop (suc m) zero [] = let e : suc m + 0 ≡ suc m = omega arith in rw e
drop-drop (suc m) (suc n) [] = let e : suc m + suc n ≡ suc (m + suc n) = omega arith in rw e
drop-drop (suc m) n (x ∷ xs) =
    let e : suc m + n ≡ suc (m + n) = omega arith in rw e (drop-drop m n xs)

drop-length : (xs : List ℕ) → drop (length xs) xs ≡ []
drop-length [] = refl
drop-length (x ∷ xs) = drop-length xs

-- A read stores behind the in-pointer.
Carries-store :
    (b : Buffer) (came left : List ℕ) (x : ℕ) (bs : List ℕ)
    → Carries b came left
    → length (x ∷ bs) ≤ room b
    → Carries (record b { stored = b.stored ++ (x ∷ bs) }) (came ++ (x ∷ bs)) left
Carries-store b came left x bs c few = record {
  pointers = omega (arith, length-append b.stored (x ∷ bs), c.pointers);
  in_bounds = omega (arith, length-append b.stored (x ∷ bs));
  rewound = λ e. absurd (omega (arith, length-append b.stored (x ∷ bs), c.pointers));
  account =
      rw (drop-append b.out b.stored (x ∷ bs) c.pointers)
        (ap (λ p. p ++ (x ∷ bs)) c.account ∙ append_assoc left (unsent b) (x ∷ bs));
}

-- A write consumes at the out-pointer.
Carries-consume :
    (b : Buffer) (came left : List ℕ) (n : ℕ)
    → Carries b came left
    → n ≤ length (unsent b)
    → Carries (consume b n) came (left ++ take n (unsent b))
unfolding consume
Carries-consume b came left n c few = elim (Bool-cases (b.out + n == length b.stored)) [
  | inl all ↦ rw all (record {
    pointers = omega arith;
    in_bounds = omega arith;
    rewound = λ _. refl;
    account =
        let e : b.out + n ≡ length b.stored = ground arith in
        moved ∙ ap (λ p. (left ++ take n (unsent b)) ++ p) (rw e (drop-length b.stored));
  })
  | inr part ↦ rw part (record {
    pointers = omega (arith, length-drop b.out b.stored, c.pointers);
    in_bounds = c.in_bounds;
    rewound = λ e. absurd (ground arith);
    account = moved;
  })
]
  where
    moved : came ≡ (left ++ take n (unsent b)) ++ drop (b.out + n) b.stored
    moved =
        c.account
        ∙ ap (λ p. left ++ p) (sym (take-append-drop n (unsent b)))
        ∙ ap (λ p. left ++ (take n (unsent b) ++ p)) (drop-drop b.out n b.stored)
        ∙ sym (append_assoc left (take n (unsent b)) (drop (b.out + n) b.stored))

-- What holds of the client however a stage ends.
abbrev pub Keeps : (Client → Type 0) → Outcome → Type 0
Keeps P (running c) = P c
Keeps P (finished c) = P c
Keeps P (terminated_prematurely c) = P c
Keeps P (failed c) = P c

-- The second half of a round's invariant: the stages before the writes have the sets of select.
abbrev pub Ready : Client → Type 0
Ready c = Inv c × (c.rset_socket ≡ true → length c.fr.stored < maxline)

pub select-Selected : (k : Kernel) (c : Client) → Inv c → Inv (select k c) × Selected (select k c)
unfolding select
select-Selected k c i = (
  record { outward = i.outward; inward = i.inward; fin_once = i.fin_once },
  record { stdin_open = λ e. ground arith; socket_room = λ e. ground arith },
)

pub Keeps-if :
    (P : Client → Type 0) (t : Bool) (x y : Outcome)
    → (t ≡ true → Keeps P x)
    → (t ≡ false → Keeps P y)
    → Keeps P (if t then x else y)
Keeps-if P true x y f g = f refl
Keeps-if P false x y f g = g refl

pub on_stdin-Ready :
    (r : InReply) (c : Client)
    → Ready c
    → c.stdineof ≡ false
    → ((bs : List ℕ) → r ≡ got bs → length bs ≤ room c.to)
    → Keeps Ready (on_stdin r c)
unfolding on_stdin
on_stdin-Ready (got []) c i o fits = elim (Bool-cases (c.to.out == length c.to.stored)) [
  | inl sent ↦ rw sent (
    record { outward = i.0.outward; inward = i.0.inward; fin_once = ground (arith, i.0.fin_once) },
    i.1,
  )
  | inr left ↦ rw left (
    record { outward = i.0.outward; inward = i.0.inward; fin_once = ground (arith, i.0.fin_once) },
    i.1,
  )
]
on_stdin-Ready (got (b ∷ bs)) c i o fits = (
  record {
    outward = Carries-store c.to c.from_stdin c.to_socket b bs i.0.outward (fits (b ∷ bs) refl);
    inward = i.0.inward;
    fin_once = ground (arith, i.0.fin_once);
  },
  i.1,
)
on_stdin-Ready read_would_block c i o fits = i
on_stdin-Ready read_error c i o fits = i

pub on_socket-Inv :
    (r : InReply) (c : Client)
    → Inv c
    → ((bs : List ℕ) → r ≡ got bs → length bs ≤ room c.fr)
    → Keeps Inv (on_socket r c)
unfolding on_socket
on_socket-Inv (got []) c i fits =
    Keeps-if Inv c.stdineof (finished c) (terminated_prematurely c) (λ _. i) (λ _. i)
on_socket-Inv (got (b ∷ bs)) c i fits = record {
  outward = i.outward;
  inward = Carries-store c.fr c.from_socket c.to_stdout b bs i.inward (fits (b ∷ bs) refl);
  fin_once = i.fin_once;
}
on_socket-Inv read_would_block c i fits = i
on_socket-Inv read_error c i fits = i

pub on_stdout-Inv :
    (r : OutReply) (c : Client)
    → Inv c
    → ((n : ℕ) → r ≡ wrote n → n ≤ length (unsent c.fr))
    → Keeps Inv (on_stdout r c)
unfolding on_stdout
on_stdout-Inv (wrote n) c i fits = record {
  outward = i.outward;
  inward = Carries-consume c.fr c.from_socket c.to_stdout n i.inward (fits n refl);
  fin_once = i.fin_once;
}
on_stdout-Inv write_would_block c i fits = i
on_stdout-Inv write_error c i fits = i

pub on_to_socket-Inv :
    (r : OutReply) (c : Client)
    → Inv c
    → c.to.out < length c.to.stored
    → ((n : ℕ) → r ≡ wrote n → n ≤ length (unsent c.to))
    → Keeps Inv (on_to_socket r c)
unfolding on_to_socket consume
on_to_socket-Inv (wrote n) c i some_left fits =
    elim (Bool-cases ((c.to.out + n == length c.to.stored) && c.stdineof)) [
      | inl last ↦
          rw last (record {
            outward = outward';
            inward = i.inward;
            fin_once = ground (arith, i.fin_once);
          })
      | inr not_last ↦
          rw not_last (record {
            outward = outward';
            inward = i.inward;
            fin_once = ground (arith, i.fin_once);
          })
    ]
  where
    outward' : Carries (consume c.to n) c.from_stdin (c.to_socket ++ take n (unsent c.to))
    outward' = Carries-consume c.to c.from_stdin c.to_socket n i.outward (fits n refl)
on_to_socket-Inv write_would_block c i some_left fits = i
on_to_socket-Inv write_error c i some_left fits = i
