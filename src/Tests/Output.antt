-- ===== src/Tests/Output.antt =====
-- What `vsprintf` writes for the conversions that the kernel uses, and the theorems of Format at
-- small inputs.
use eg_gs.Base.{◌-◌, ◌^◌, ◌≤◌, ◌≡◌, ◌≢◌, refl, true, [], ◌∷◌, ◌++◌, length, codes, arith}
use eg_gs.Screen.{Screen}
use eg_gs.Format.{Flags, no_flags, number, tmp_of, digit_loop, backwards, padded, skip_atoi, strlen}
use eg_gs.Format.Spec.{
  word, text, star_width, parse_flags, parse_width, parse_precision, parse_qualifier,
}
use eg_gs.Format.Print.{
  done, out_of_rounds, take, put_number, put_char, put_text, convert, conversion, vsprintf_loop,
  vsprintf,
}
use eg_gs.Format.Numeral.{Numeral, tmp_value, tmp_of-fits}
use eg_gs.Format.Ends.{vsprintf_loop-ends}
use eg_gs.Format.Plain.{vsprintf-text}

abbrev pub dark : Screen
dark = record { mem = λ _. 0; attrib = 0x0F; csr_x = 0; csr_y = 0; ports = [] }

abbrev signed : Flags
signed = record no_flags { sign = true; zeropad = true }

tmp_of-fits_example :
    (length (tmp_of no_flags 1979 16) ≤ 32) × (tmp_value 16 (tmp_of no_flags 1979 16) ≡ 1979)
tmp_of-fits_example = tmp_of-fits no_flags 1979 16 (omega arith) (omega arith) (omega arith)

vsprintf_loop-ends_example : vsprintf_loop 9 (codes "HD %x: %d") [] [] [] ≢ out_of_rounds
vsprintf_loop-ends_example = vsprintf_loop-ends 9 (codes "HD %x: %d") [] [] [] (omega arith)

vsprintf-text_example :
    (vsprintf (codes "HD ") [] ≡ done (codes "HD ") [])
    × (vsprintf (codes "HD " ++ (codes "%s" ++ codes " ok")) (text (codes "%d") ∷ [])
        ≡ done (codes "HD " ++ (codes "%d" ++ codes " ok")) [])
vsprintf-text_example = vsprintf-text (codes "HD ") (codes " ok") (codes "%d") [] refl refl

numbers_test :
    vsprintf (codes "%d|%5d|%-5d|%05d|%x|%#X|%p|%.3u") (
      word (2 ^ 32 - 7)
      ∷ word 42
      ∷ word 42
      ∷ word 42
      ∷ word 255
      ∷ word 255
      ∷ word 4096
      ∷ word 5
      ∷ [])
    ≡ done (codes "-7|   42|42   |00042|ff|0X" ++ codes "FF|00001000|005") []
unfolding vsprintf vsprintf_loop conversion convert put_number number digit_loop backwards padded
    parse_flags parse_width parse_precision parse_qualifier skip_atoi
numbers_test = refl

texts_test :
    vsprintf
      (codes "%5s|%-4s|%.2s|%c|%%|%q")
      (text (codes "ab") ∷ text (codes "ab") ∷ text (codes "abc") ∷ word 65 ∷ [])
    ≡ done (codes "   ab|ab  |ab|A|%|%q") []
unfolding vsprintf vsprintf_loop conversion convert put_text put_char take strlen parse_flags
    parse_width parse_precision parse_qualifier skip_atoi
texts_test = refl

-- After a `*` the format stays where it is, so that the `*` is taken for the conversion.
star_test : vsprintf (codes "%*d") (word 5 ∷ word 42 ∷ []) ≡ done (codes "%*d") []
unfolding vsprintf vsprintf_loop conversion convert parse_flags parse_width parse_precision
    parse_qualifier star_width
star_test = refl
