-- ===== src/Tests/AppId.antt =====
-- A desktop file name with its suffix twice.
use time_bandits.Base.{◌≡◌, refl, some, [], codes, arith, Text, utf8, ◌↔◌, all, true, ◌∷◌}
use time_bandits.AppId.Units.{unescape_unit}
use time_bandits.AppId.Unescaping.{
  Escapes, empty, plain, escaped, is_ascii_byte, unescape_unit-Escapes,
}

-- The name a-b, with its hyphen escaped.
escaped_hyphen : Escapes (codes "a-b") (codes "a\\x2db")
escaped_hyphen =
    plain b'a' _ _ (omega arith) (λ e. ground arith)
      (escaped b'2' b'd' 2 13 _ _ refl refl
        (plain b'b' [] [] (omega arith) (λ e. ground arith) empty))

unescape_unit-Escapes_example :
    (text : Text) × (unescape_unit (codes "a\\x2db") ≡ some text)
    × ((utf8 text ≡ codes "a-b") ↔ (all is_ascii_byte (codes "a-b") ≡ true))
unescape_unit-Escapes_example = unescape_unit-Escapes (codes "a-b") (codes "a\\x2db") escaped_hyphen

-- The two bytes of an umlaut become two characters.
escaped_umlaut : unescape_unit (codes "\\xc3\\xbc") ≡ some (0xc3 ∷ 0xbc ∷ [])
unfolding unescape_unit
escaped_umlaut = refl
