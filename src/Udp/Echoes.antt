-- ===== src/Udp/Echoes.antt =====
-- The client and the server of the datagrams together, and a datagram from elsewhere between them.
use my_unp.Prelude.{
  ℕ, ◌<◌, ◌≡◌, refl, ◌∙◌, sym, ap, List, [], ◌∷◌, ◌++◌, append-nil, Bool, true, false, ◌==◌,
  if◌then◌else◌, Text, take, take_all, length, length-append, arith,
}
use my_unp.Stream.Readline.{maxline}
use my_unp.Talk.{cstr}
use my_unp.Udp.{Datagram, dg_echo, same_address, DgRun, finished, printed, sent, dg_cli}

-- The datagrams that carry lines, from or to an address.
unfoldable pub datagrams : List ℕ → List Text → List Datagram
datagrams address [] = []
datagrams address (l ∷ ls) = record { address = address; payload = cstr l } ∷ datagrams address ls

-- What came back to an address has come from the server.
unfoldable pub from : List ℕ → List Datagram → List Datagram
from psrvaddr [] = []
from psrvaddr (d ∷ ds) = record d { address = psrvaddr } ∷ from psrvaddr ds

unfoldable pub texts : List Text → Text
texts [] = []
texts (l ∷ ls) = cstr l ++ texts ls

unfoldable pub strings : List Text → List Text
strings [] = []
strings (l ∷ ls) = cstr l ∷ strings ls

abbrev pub AllShort : List Text → Type 0
AllShort [] = Unit
AllShort (l ∷ ls) = (length (cstr l) < maxline) × AllShort ls

AllShort-front : (ls ms : List Text) → AllShort (ls ++ ms) → AllShort ls
AllShort-front [] ms h = tt
AllShort-front (l ∷ ls) ms h = (h.0, AllShort-front ls ms h.1)

same_address_self : (xs : List ℕ) → same_address xs xs ≡ true
same_address_self [] = refl
same_address_self (x ∷ xs) =
    let same : (x == x) ≡ true = ground arith in rw (same, same_address_self xs) refl

cstr-cstr : (l : Text) → cstr (cstr l) ≡ cstr l
cstr-cstr [] = refl
cstr-cstr (c ∷ cs) = go (c == 0) refl (cstr-cstr cs)
  where
    go :
        (nul : Bool)
        → (c == 0) ≡ nul
        → cstr (cstr cs) ≡ cstr cs
        → cstr (if nul then [] else c ∷ cstr cs) ≡ (if nul then [] else c ∷ cstr cs)
    go true e ih = refl
    go false e ih = rw (e, ih) refl

-- The server sends back what fits its buffer as it is.
dg_echo-datagrams :
    (address : List ℕ) (ls : List Text)
    → AllShort ls
    → dg_echo (datagrams address ls) ≡ datagrams address ls
unfolding dg_echo datagrams
dg_echo-datagrams address [] h = refl
dg_echo-datagrams address (l ∷ ls) (h, hs) =
    rw (take_all maxline (cstr l) (omega (arith, h)), dg_echo-datagrams address ls hs) refl

from-datagrams :
    (psrvaddr address : List ℕ) (ls : List Text)
    → from psrvaddr (datagrams address ls) ≡ datagrams psrvaddr ls
unfolding from datagrams
from-datagrams psrvaddr address [] = refl
from-datagrams psrvaddr address (l ∷ ls) =
    ap (λ ds. record { address = psrvaddr; payload = cstr l } ∷ ds)
      (from-datagrams psrvaddr address ls)

-- What is printed of an answer to a line.
printed-line :
    (l : Text) (rest : DgRun)
    → length (cstr l) < maxline
    → printed (take maxline (cstr l)) rest ≡ record rest { prints = cstr l ++ rest.prints }
printed-line l rest h =
    let not_full : (length (cstr l) == maxline) ≡ false = ground (arith, h) in
    rw (take_all maxline (cstr l) (omega (arith, h)), not_full, cstr-cstr l) refl

-- Each datagram of the server is printed for a line, whichever.
dg_cli-datagrams :
    (psrvaddr : List ℕ) (ms ls : List Text) (more : List Datagram)
    → length ms ≡ length ls
    → AllShort ls
    → dg_cli psrvaddr ms (datagrams psrvaddr ls ++ more)
      ≡ record { sends = strings ms; prints = texts ls; why = finished }
unfolding dg_cli datagrams strings texts
dg_cli-datagrams psrvaddr [] [] more e h = refl
dg_cli-datagrams psrvaddr [] (l ∷ ls) more e h = absurd (omega (arith, e))
dg_cli-datagrams psrvaddr (m ∷ ms) [] more e h = absurd (omega (arith, e))
dg_cli-datagrams psrvaddr (m ∷ ms) (l ∷ ls) more e (h, hs) =
    rw (same_address_self psrvaddr, dg_cli-datagrams psrvaddr ms ls more (omega (arith, e)) hs)
      (ap (sent (cstr m))
        (printed-line l (record { sends = strings ms; prints = texts ls; why = finished }) h))

-- Where no datagram is lost and the lines fit the buffers: the client of an echo server sends its lines,
-- prints them as they come back, and returns.
pub dg_cli-dg_echo :
    (psrvaddr address : List ℕ) (ls : List Text)
    → AllShort ls
    → dg_cli psrvaddr ls (from psrvaddr (dg_echo (datagrams address ls)))
      ≡ record { sends = strings ls; prints = texts ls; why = finished }
dg_cli-dg_echo psrvaddr address ls h =
    ap (λ ds. dg_cli psrvaddr ls (from psrvaddr ds)) (dg_echo-datagrams address ls h)
    ∙ ap (dg_cli psrvaddr ls)
        (from-datagrams psrvaddr address ls ∙ sym (append-nil (datagrams psrvaddr ls)))
    ∙ dg_cli-datagrams psrvaddr ls ls [] refl h

datagrams-append :
    (psrvaddr : List ℕ) (ls ms : List Text)
    → datagrams psrvaddr (ls ++ ms) ≡ datagrams psrvaddr ls ++ datagrams psrvaddr ms
unfolding datagrams
datagrams-append psrvaddr [] ms = refl
datagrams-append psrvaddr (l ∷ ls) ms =
    ap (λ ds. record { address = psrvaddr; payload = cstr l } ∷ ds)
      (datagrams-append psrvaddr ls ms)

lags :
    (psrvaddr : List ℕ) (ls : List Text) (m : Text) (alien : Datagram)
    → AllShort (ls ++ (m ∷ []))
    → same_address psrvaddr alien.address ≡ false
    → dg_cli psrvaddr (ls ++ (m ∷ [])) (alien ∷ datagrams psrvaddr (ls ++ (m ∷ [])))
      ≡ record { sends = strings (ls ++ (m ∷ [])); prints = texts ls; why = finished }
unfolding dg_cli strings texts datagrams
lags psrvaddr [] m alien h elsewhere = rw elsewhere refl
lags psrvaddr (l ∷ ls) m alien h elsewhere =
    rw (elsewhere, datagrams-append psrvaddr ls (m ∷ []))
      (ap (sent (cstr l)) (
        dg_cli-datagrams psrvaddr (ls ++ (m ∷ [])) (l ∷ ls) (datagrams psrvaddr (m ∷ []))
          (omega (arith, length-append ls (m ∷ []))) (h.0, AllShort-front ls (m ∷ []) h.1)))

-- Where no datagram is lost and the lines fit the buffers, but one datagram from elsewhere comes in front
-- of what dg_echo sends back, the client ignores it and goes on to the next line: it prints the reply to
-- each line for the line behind it, and returns without the reply to the last.
pub dg_cli-lags :
    (psrvaddr address : List ℕ) (ls : List Text) (m : Text) (alien : Datagram)
    → AllShort (ls ++ (m ∷ []))
    → same_address psrvaddr alien.address ≡ false
    → dg_cli psrvaddr
        (ls ++ (m ∷ []))
        (alien ∷ from psrvaddr (dg_echo (datagrams address (ls ++ (m ∷ [])))))
      ≡ record { sends = strings (ls ++ (m ∷ [])); prints = texts ls; why = finished }
dg_cli-lags psrvaddr address ls m alien h elsewhere =
    ap (λ ds. dg_cli psrvaddr (ls ++ (m ∷ [])) (alien ∷ from psrvaddr ds))
      (dg_echo-datagrams address (ls ++ (m ∷ [])) h)
    ∙ ap (λ ds. dg_cli psrvaddr (ls ++ (m ∷ [])) (alien ∷ ds))
        (from-datagrams psrvaddr address (ls ++ (m ∷ [])))
    ∙ lags psrvaddr ls m alien h elsewhere
