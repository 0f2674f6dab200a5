-- ===== src/Prelude/Text.antt =====
-- Texts as the validators read them: their code points, and emptiness.
use Prim.Native.Char.{code}
use Prim.Native.String.{String}
use Prim.Native.Nat.{ℕ, zero, suc, ◌+◌}
use mathlib.Core.Bool.{Bool, true, ◌&&◌}
use mathlib.Core.Option.{Option, none, some}
use mathlib.Core.List.{List, [], ◌∷◌}
use ai_inference_cost_optimi.Prelude.Tests.{leb, eqb, if◌then◌else◌}
use ai_inference_cost_optimi.Prelude.Equality.{◌==◌, string_eq}

abbrev pub codes : String → List ℕ
codes String.[] = []
codes (String.◌∷◌ c s) = code c ∷ codes s

-- `not text` for a text that may be None
abbrev pub blank : Option String → Bool
blank none = true
blank (some s) = s == ""

-- `[a-z]` and `[0-9]`
abbrev pub is_lower : ℕ → Bool
is_lower c = leb b'a' c && leb c b'z'

abbrev pub is_digit : ℕ → Bool
is_digit c = leb b'0' c && leb c b'9'

abbrev pub is_upper : ℕ → Bool
is_upper c = leb b'A' c && leb c b'Z'

-- The first `n` characters, `text[:n]`.
unfoldable pub take_text : ℕ → String → String
take_text zero s = ""
take_text (suc n) String.[] = ""
take_text (suc n) (String.◌∷◌ c s) = String.◌∷◌ c (take_text n s)

-- What follows a prefix of lower-case letters, whatever the case of the text.
unfoldable pub after_prefix : List ℕ → String → Option String
after_prefix [] s = some s
after_prefix (p ∷ prefix) String.[] = none
after_prefix (p ∷ prefix) (String.◌∷◌ c s) =
    let rest = after_prefix prefix s in
    let lower = if is_upper (code c) then code c + 32 else code c in
    if eqb lower p then rest else none
