-- ===== src/Base/Chars.antt =====
-- The characters of a text, `chars`.
use Prim.Native.Char.{Char}
use Prim.Native.String.{String, [], ◌∷◌, ◌++◌}
use Prim.Native.String.append
use mathlib.Core.Path.{◌≡◌, ap, ◌∙◌}
use mathlib.Core.List.{List, [] as no_chars, ◌∷◌ as ◌∷ᴸ◌, ◌++◌ as ◌++ᴸ◌}

unfoldable pub chars : String → List Char
chars [] = no_chars
chars (c ∷ s) = c ∷ᴸ chars s

pub chars-append : (s t : String) → chars (s ++ t) ≡ chars s ++ᴸ chars t
unfolding chars
chars-append [] t = λ i. chars (append.nil t i)
chars-append (c ∷ s) t = (λ i. chars (append.cons c s t i)) ∙ ap (λ cs. c ∷ᴸ cs) (chars-append s t)
