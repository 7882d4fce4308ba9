-- ===== src/Sock/Loop/Stages.antt =====
-- What each stage of the sock loop passes on.
use my_unp.Prelude.{
  ℕ, ◌≡◌, refl, sym, ap, subst, ◌∙◌, List, [], ◌∷◌, ◌++◌, append-nil, Bool, true, false, ◌&&◌,
  Option, none, some, if◌then◌else◌, Text, ◌⊎◌, inl, inr, arith,
}
use my_unp.Sock.Crlf.{Converted, crlf_add, crlf_strip}
use my_unp.Sock.Crlf.Conversion.{crlf_add-stores, crlf_strip-stores}
use my_unp.Sock.Loop.{
  Options, Copier, Answers, Control, falls, continues, breaks, exits, select, converted, sends,
  prints, half_closes, input_read, on_socket,
}
use my_unp.Sock.Crlf.Returns.{
  with_returns, without_returns, with_returns-append, without_returns-append,
}

abbrev pub passed : Bool → (Text → Text) → Text → Text
passed true f bs = f bs
passed false f bs = bs

-- All is passed on, converted if that is asked; the FIN goes out once, at the end of stdin and only
-- with `halfclose`, and stdin is not read again.
pub record Inv (o : Options) (c : Copier) : Type 0 where
  pub outward : c.to_socket ≡ passed o.crlf with_returns c.from_stdin
  pub inward : c.to_stdout ≡ passed o.crlf without_returns c.from_socket
  pub fin_once : c.shutdowns ≡ (if c.stdineof then 1 else 0)
  pub not_asked : c.stdineof ≡ true → c.rset_input ≡ false
  pub asked_half : c.stdineof ≡ true → o.halfclose ≡ true

-- A call failed in this round, or the bytes that it read did not fit in the `writelen` bytes of the
-- other buffer. Only a descriptor that select found ready is read.
pub data Fails (o : Options) (k : Answers) : Type 0 where
  select_failed : k.select_ok ≡ false → Fails o k
  input_failed : k.input_ready ≡ true → k.read_input ≡ none → Fails o k
  shutdown_failed :
      k.input_ready ≡ true → k.read_input ≡ some [] → k.shutdown_ok ≡ false → Fails o k
  write_failed :
      (bs : Text)
      → k.input_ready ≡ true
      → k.read_input ≡ some bs
      → k.write_socket_ok ≡ false
      → Fails o k
  socket_failed : k.socket_ready ≡ true → k.read_socket ≡ none → Fails o k
  print_failed :
      (bs : Text)
      → k.socket_ready ≡ true
      → k.read_socket ≡ some bs
      → k.write_stdout_ok ≡ false
      → Fails o k
  add_overflow :
      (bs : Text)
      → k.input_ready ≡ true
      → k.read_input ≡ some bs
      → o.crlf ≡ true
      → crlf_add o.writelen bs ≡ none
      → Fails o k
  strip_overflow :
      (bs : Text)
      → k.socket_ready ≡ true
      → k.read_socket ≡ some bs
      → o.crlf ≡ true
      → crlf_strip o.writelen bs ≡ none
      → Fails o k

abbrev pub SomeFails : Options → List Answers → Type 0
SomeFails o [] = ⊥
SomeFails o (k ∷ ks) = Fails o k ⊎ SomeFails o ks

-- The loop ends behind the end of stdin without `halfclose`, or behind the end of the socket, which
-- no UDP server sees.
abbrev pub Passes : Type 0 → Options → Control → Type 0
Passes F o (falls c) = Inv o c
Passes F o (continues c) = Inv o c
Passes F o (breaks c) = Inv o c × ((o.halfclose ≡ false) ⊎ (o.udp && o.server ≡ false))
Passes F o exits = F

pub Passes-if :
    (F : Type 0) (o : Options) (t : Bool) (x y : Control)
    → (t ≡ true → Passes F o x)
    → (t ≡ false → Passes F o y)
    → Passes F o (if t then x else y)
Passes-if F o true x y f g = f refl
Passes-if F o false x y f g = g refl

pub select-Passes :
    (o : Options) (k : Answers) (c : Copier) → Inv o c → Passes (Fails o k) o (select k c)
unfolding select
select-Passes o k c v =
    Passes-if (Fails o k) o k.select_ok _ exits (λ _. go c.stdineof refl) select_failed
  where
    go :
        (b : Bool)
        → c.stdineof ≡ b
        → Inv o (record c {
          rset_input = (if c.stdineof then c.rset_input else true) && k.input_ready;
          rset_socket = k.socket_ready;
        })
    go true e = record {
      outward = v.outward;
      inward = v.inward;
      fin_once = v.fin_once;
      not_asked = λ q. ground (arith, v.not_asked e);
      asked_half = v.asked_half;
    }
    go false e = record {
      outward = v.outward;
      inward = v.inward;
      fin_once = v.fin_once;
      not_asked = λ q. cc;
      asked_half = v.asked_half;
    }

passed_next :
    (b : Bool) (f : Text → Text) (xs ys out : Text)
    → ((a : Text) (c : Text) → f (a ++ c) ≡ f a ++ f c)
    → out ≡ passed b f xs
    → out ++ passed b f ys ≡ passed b f (xs ++ ys)
passed_next true f xs ys out split h = ap (λ p. p ++ f ys) h ∙ sym (split xs ys)
passed_next false f xs ys out split h = ap (λ p. p ++ ys) h

converted-some :
    (b : Bool) (conv : Text → Converted) (f : Text → Text) (bs : Text) (r : ℕ × Text)
    → ((q : ℕ × Text) → conv bs ≡ some q → q.1 ≡ f bs)
    → converted b conv bs ≡ some r
    → r.1 ≡ passed b f bs
converted-some true conv f bs r stores h = stores r h
converted-some false conv f bs r stores h = cc

converted-none :
    (b : Bool) (conv : Text → Converted) (bs : Text)
    → converted b conv bs ≡ none
    → (b ≡ true) × (conv bs ≡ none)
converted-none true conv bs h = (refl, h)
converted-none false conv bs h = absurd cc

pub nothing : (b : Bool) (f : Text → Text) → f [] ≡ [] → [] ≡ passed b f []
nothing true f h = sym h
nothing false f h = refl

sends-Passes :
    (o : Options) (k : Answers) (bs : Text) (c : Copier) (ok : Bool)
    → k.input_ready ≡ true
    → k.read_input ≡ some bs
    → k.write_socket_ok ≡ ok
    → (r : Converted) → converted o.crlf (crlf_add o.writelen) bs ≡ r
    → Inv o c
    → Passes (Fails o k) o (sends r ok (record c { from_stdin = c.from_stdin ++ bs }))
sends-Passes o k bs c true ready came e (some r) q v = record {
  outward =
      ap (λ p. c.to_socket ++ p)
        (converted-some o.crlf (crlf_add o.writelen) with_returns bs r
          (crlf_add-stores o.writelen bs) q)
      ∙ passed_next o.crlf with_returns c.from_stdin bs c.to_socket with_returns-append v.outward;
  inward = v.inward;
  fin_once = v.fin_once;
  not_asked = v.not_asked;
  asked_half = v.asked_half;
}
sends-Passes o k bs c false ready came e (some r) q v = write_failed bs ready came e
sends-Passes o k bs c ok ready came e none q v =
    let (t, h) = converted-none o.crlf (crlf_add o.writelen) bs q in add_overflow bs ready came t h

prints-Passes :
    (o : Options) (k : Answers) (bs : Text) (c : Copier) (ok : Bool)
    → k.socket_ready ≡ true
    → k.read_socket ≡ some bs
    → k.write_stdout_ok ≡ ok
    → (r : Converted) → converted o.crlf (crlf_strip o.writelen) bs ≡ r
    → Inv o c
    → Passes (Fails o k) o (prints r ok (record c { from_socket = c.from_socket ++ bs }))
prints-Passes o k bs c true ready came e (some r) q v = record {
  outward = v.outward;
  inward =
      ap (λ p. c.to_stdout ++ p)
        (converted-some o.crlf (crlf_strip o.writelen) without_returns bs r
          (crlf_strip-stores o.writelen bs) q)
      ∙ passed_next o.crlf without_returns c.from_socket bs c.to_stdout without_returns-append
          v.inward;
  fin_once = v.fin_once;
  not_asked = v.not_asked;
  asked_half = v.asked_half;
}
prints-Passes o k bs c false ready came e (some r) q v = print_failed bs ready came e
prints-Passes o k bs c ok ready came e none q v =
    let (t, h) = converted-none o.crlf (crlf_strip o.writelen) bs q in
    strip_overflow bs ready came t h

half_closes-Passes :
    (o : Options) (k : Answers) (c : Copier) (ok : Bool)
    → k.shutdown_ok ≡ ok
    → o.halfclose ≡ true
    → k.input_ready ≡ true
    → k.read_input ≡ some []
    → c.stdineof ≡ false
    → Inv o c
    → Passes (Fails o k) o (half_closes ok c)
half_closes-Passes o k c true e half ready came unended v = record {
  outward = v.outward;
  inward = v.inward;
  fin_once = ground (arith, v.fin_once);
  not_asked = λ _. refl;
  asked_half = λ _. half;
}
half_closes-Passes o k c false e half ready came unended v = shutdown_failed ready came e

pub input_read-Passes :
    (o : Options) (k : Answers) (r : Option Text) (c : Copier)
    → k.input_ready ≡ true
    → k.read_input ≡ r
    → c.stdineof ≡ false
    → Inv o c
    → Passes (Fails o k) o (input_read o k r c)
unfolding input_read
input_read-Passes o k none c ready e unended v = input_failed ready e
input_read-Passes o k (some []) c ready e unended v =
    Passes-if (Fails o k) o o.halfclose (half_closes k.shutdown_ok c) (breaks c)
      (λ half. half_closes-Passes o k c k.shutdown_ok refl half ready e unended v)
      (λ whole. (v, inl whole))
input_read-Passes o k (some (b ∷ bs)) c ready e unended v =
    sends-Passes o k (b ∷ bs) c k.write_socket_ok ready e refl
      (converted o.crlf (crlf_add o.writelen) (b ∷ bs)) refl v

pub on_socket-Passes :
    (o : Options) (k : Answers) (r : Option Text) (c : Copier)
    → k.socket_ready ≡ true
    → k.read_socket ≡ r
    → Inv o c
    → Passes (Fails o k) o (on_socket o k r c)
unfolding on_socket
on_socket-Passes o k none c ready e v = socket_failed ready e
on_socket-Passes o k (some []) c ready e v =
    Passes-if (Fails o k) o (o.udp && o.server)
      (prints (converted o.crlf (crlf_strip o.writelen) []) k.write_stdout_ok c) (breaks c)
      (λ _.
        subst
          (λ from. Passes (Fails o k) o (
            prints (converted o.crlf (crlf_strip o.writelen) []) k.write_stdout_ok
              (record c { from_socket = from })))
          (append-nil c.from_socket)
          (prints-Passes o k [] c k.write_stdout_ok ready e refl
            (converted o.crlf (crlf_strip o.writelen) []) refl v))
      (λ stream. (v, inr stream))
on_socket-Passes o k (some (b ∷ bs)) c ready e v =
    prints-Passes o k (b ∷ bs) c k.write_stdout_ok ready e refl
      (converted o.crlf (crlf_strip o.writelen) (b ∷ bs)) refl v
