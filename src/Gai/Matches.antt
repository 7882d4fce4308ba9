-- ===== src/Gai/Matches.antt =====
-- Which entries fit the hints of the caller.
use my_unp.Prelude.{◌≡◌, ◌⊎◌, List, [], ◌∷◌, ◌++◌, true}
use my_unp.Gai.{unspec, Hints, Addrinfo}

pub record Matches (hints : Hints) (ai : Addrinfo) : Type 0 where
  pub family_asked : (hints.family ≡ unspec) ⊎ (ai.family ≡ hints.family)
  pub protocol_asked : ai.protocol ≡ hints.protocol
  pub type_asked : (hints.socktype ≡ 0) ⊎ (ai.socktype ≡ hints.socktype)
  -- The internal flag, by which ga_port makes entries for other socket types.
  pub clone_untyped : ai.clone ≡ true → hints.socktype ≡ 0

abbrev pub AllMatch : Hints → List Addrinfo → Type 0
AllMatch hints [] = Unit
AllMatch hints (ai ∷ ais) = Matches hints ai × AllMatch hints ais

pub AllMatch-append :
    (hints : Hints) (xs ys : List Addrinfo)
    → AllMatch hints xs
    → AllMatch hints ys
    → AllMatch hints (xs ++ ys)
AllMatch-append hints [] ys h k = k
AllMatch-append hints (x ∷ xs) ys h k = (h.0, AllMatch-append hints xs ys h.1 k)
