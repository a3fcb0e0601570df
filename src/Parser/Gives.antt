-- ===== src/Parser/Gives.antt =====
-- Methods of `src/parser/Parser.cpp` that return their node, without a report, and what they leave unread.
use choco_c.Prelude.{◌≡◌, refl, ◌∙◌, true, false, List, ◌∷◌, some, negsuc, if◌then◌else◌}
use choco_c.TokenType.{TokenType}
use choco_c.Token.{Token, one_of}
use choco_c.TokenStream.{IsValid, remaining, peek}
use choco_c.Diagnostics.{DiagnosticsManager}
use choco_c.Parser.Monad.{State, Result, ok, bind, Parser, caught, step, expect}
use choco_c.TokenStream.Laws.{advance_first}
use choco_c.Parser.Ensures.{matches-one_of}

-- The state has the tokens `ts` left to read, and the reports of `d`.
pub record At (d : DiagnosticsManager) (ts : List Token) (s : State) : Type 0 where
  pub valid : IsValid s.token_stream
  pub left : remaining s.token_stream ≡ ts
  pub quiet : s.diag_manager ≡ d

-- The run returned `a`, with the tokens `ts` left and the reports of `d`.
pub data Gives {A : Type 0} (a : A) (d : DiagnosticsManager) (ts : List Token)
    : Result A → Type 0 where
  gives : {s : State} → At d ts s → Gives a d ts (ok a s)

pub At-left :
    {d : DiagnosticsManager} {ts us : List Token} {s : State} → ts ≡ us → At d ts s → At d us s
At-left e a = record { valid = a.valid; left = a.left ∙ e; quiet = a.quiet }

-- A step over the current token.
pub step-At :
    {d : DiagnosticsManager} (s : State) (t : Token) (r : List Token)
    → At d (t ∷ r) s
    → (s' : State) × (step s ≡ ok tt s') × At d r s' × (peek s'.token_stream (negsuc 0) ≡ some t)
unfolding step
step-At s t r p =
    let (str, moved, a) = advance_first s.token_stream p.valid t r p.left in
    (
      record s { token_stream = str },
      rw moved,
      record { valid = a.valid; left = a.unread; quiet = p.quiet },
      a.behind,
    )

module _ {A : Type 0} {a : A} {d : DiagnosticsManager} {ts : List Token} where
  pub Gives-ok : {r : Result A} → Gives a d ts r → (s : State) × (r ≡ ok a s) × At d ts s
  Gives-ok (gives {s} p) = (s, refl, p)

  pub Gives-bind :
      {B : Type 0} {b : B} {us : List Token} {r : Result B} (f : B → Parser A)
      → Gives b d us r
      → ((s : State) → At d us s → Gives a d ts (f b s))
      → Gives a d ts (bind r f)
  Gives-bind f (gives {s} p) k = k s p

  pub Gives-caught : {r : Result A} → Gives a d ts r → Gives (some a) d ts (caught r)
  Gives-caught (gives p) = gives p

  -- `if (expect(types...)) { x } else { y }` where the current token matches.
  pub Gives-expect :
      (types : List TokenType) (x y : Parser A) (s : State) (t : Token) (r : List Token)
      → At d (t ∷ r) s
      → one_of t.type types ≡ true
      → ((s' : State) → At d r s' → peek s'.token_stream (negsuc 0) ≡ some t → Gives a d ts (x s'))
      → Gives a d ts (bind (expect types s) (λ b. if b then x else y))
  unfolding expect
  Gives-expect types x y s t r p h k =
      let hit = matches-one_of types s t r p.valid p.left ∙ h in
      let (s', stepped, p', behind) = step-At s t r p in rw (hit, expect, stepped) (k s' p' behind)

  -- The same where it does not.
  pub Gives-expect_not :
      (types : List TokenType) (x y : Parser A) (s : State) (t : Token) (r : List Token)
      → At d (t ∷ r) s
      → one_of t.type types ≡ false
      → Gives a d ts (y s)
      → Gives a d ts (bind (expect types s) (λ b. if b then x else y))
  unfolding expect
  Gives-expect_not types x y s t r p h k =
      let miss = matches-one_of types s t r p.valid p.left ∙ h in rw (miss, expect) k
