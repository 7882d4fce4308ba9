-- ===== src/Talk/Plan.antt =====
-- What the client of the echo server does, as a function of its input and of the bytes that come.
use my_unp.Prelude.{ℕ, ◌≡◌, ◌∙◌, ap, sym, List, [], ◌∷◌, ◌++◌, append_assoc, Text}
use my_unp.Stream.Kernel.{Kernel}
use my_unp.Stream.Readline.Refine.{take_line}
use my_unp.Talk.{cstr, Talked, returned, server_gone, io_failed, no_fuel}

pub data TalkEnd : Type 0 where
  finished gone : TalkEnd

-- The bytes sent and printed, and how it ends.
pub record Talk : Type 0 where
  pub sends : Text
  pub prints : Text
  pub why : TalkEnd

abbrev pub exchange : Text → Text → Talk → Talk
exchange l [] rest = record { sends = l; prints = []; why = gone }
exchange l (c ∷ cs) rest = record {
  sends = l ++ rest.sends;
  prints = cstr (c ∷ cs) ++ rest.prints;
  why = rest.why;
}

-- Each line of the input is sent, and a line of the stream printed.
unfoldable pub talk : List Text → List ℕ → Talk
talk [] all = record { sends = []; prints = []; why = finished }
talk (l ∷ ls) all = let r = take_line 4095 all in exchange (cstr l) r.text (talk ls r.rest)

-- The client has followed the plan, from `s` and with `out` printed: all of it, or the first of the
-- bytes where a call has failed.
abbrev pub Follows : {S : Type 0} → Kernel S → S → Text → Talk → Talked S → Type 0
Follows k s out t (returned o s') =
    (t.why ≡ finished) × (k.sent s' ≡ k.sent s ++ t.sends) × (o ≡ out ++ t.prints)
Follows k s out t (server_gone o s') =
    (t.why ≡ gone) × (k.sent s' ≡ k.sent s ++ t.sends) × (o ≡ out ++ t.prints)
Follows k s out t (io_failed o s') =
    (a : Text) × (b : Text) × (c : Text) × (d : Text) × (t.sends ≡ a ++ b)
    × (k.sent s' ≡ k.sent s ++ a)
    × (t.prints ≡ c ++ d)
    × (o ≡ out ++ c)
Follows k s out t no_fuel = ⊥

-- A line is sent and one is printed, and the rest follows.
pub Follows-exchange :
    {S : Type 0} (k : Kernel S) (s s' : S) (out l : Text) (c : ℕ) (cs : Text) (rest : Talk)
    (r : Talked S)
    → k.sent s' ≡ k.sent s ++ l
    → Follows k s' (out ++ cstr (c ∷ cs)) rest r
    → Follows k s out (exchange l (c ∷ cs) rest) r
Follows-exchange k s s' out l c cs rest (returned o t) e (why, sent, printed) = (
  why,
  sent ∙ ap (λ p. p ++ rest.sends) e ∙ append_assoc (k.sent s) l rest.sends,
  printed ∙ append_assoc out (cstr (c ∷ cs)) rest.prints,
)
Follows-exchange k s s' out l c cs rest (server_gone o t) e (why, sent, printed) = (
  why,
  sent ∙ ap (λ p. p ++ rest.sends) e ∙ append_assoc (k.sent s) l rest.sends,
  printed ∙ append_assoc out (cstr (c ∷ cs)) rest.prints,
)
Follows-exchange k s s' out l c cs rest (io_failed o t) e (a, b, p, q, ab, sent, pq, printed) = (
  l ++ a,
  b,
  cstr (c ∷ cs) ++ p,
  q,
  behind l a b ab,
  sent ∙ ap (λ x. x ++ a) e ∙ append_assoc (k.sent s) l a,
  behind (cstr (c ∷ cs)) p q pq,
  printed ∙ append_assoc out (cstr (c ∷ cs)) p,
)
  where
    behind : {xs : Text} (l a b : Text) → xs ≡ a ++ b → l ++ xs ≡ (l ++ a) ++ b
    behind l a b h = ap (λ x. l ++ x) h ∙ sym (append_assoc l a b)
Follows-exchange k s s' out l c cs rest no_fuel e h = h
