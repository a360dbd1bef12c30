-- ===== src/Tester/Tests.antt =====
-- The text of two bytes.
use adaptive_transport.Common.{◌≡◌, refl, [], ◌∷◌, arith}
use adaptive_transport.Tester.{hex_print}
use adaptive_transport.Tester.Decode.{decode, decode-hex_print}

-- "4F A0 " and a newline.
text : hex_print (79 ∷ 160 ∷ []) ≡ 52 ∷ 70 ∷ 32 ∷ 65 ∷ 48 ∷ 32 ∷ 10 ∷ []
unfolding hex_print
text = refl

decode-hex_print_example : decode (hex_print (79 ∷ 160 ∷ [])) ≡ 79 ∷ 160 ∷ []
decode-hex_print_example = decode-hex_print (79 ∷ 160 ∷ []) (omega arith, (omega arith, tt))
