-- ===== src/Tests/Util.antt =====
-- src/util on concrete texts.
use llama_cli.Util.Encode.{
  url_encode, url_byte, is_unreserved, is_letter, hex_upper, strip_ansi, strip_from, shell_escape,
}
use llama_cli.Util.Url.{url_decode, outside, url_decode-url_encode}
use llama_cli.Util.Shell.{read_word, bare, read-shell_escape}
use llama_cli.Util.Colors.{color_name_to_ansi, color_table, lookup_or}
use llama_cli.Base.{◌≡◌, refl, ◌≢◌, some, [], ◌∷◌, arith, codes, text_eq}

encoded : url_encode (codes "a b/1") ≡ codes "a+b%2F1"
unfolding url_encode url_byte is_unreserved is_letter hex_upper
encoded = refl

url_decode-url_encode_example : url_decode outside (url_encode (codes "a &")) ≡ codes "a &"
url_decode-url_encode_example =
    url_decode-url_encode (codes "a &") (omega arith, (omega arith, (omega arith, tt)))

read-shell_escape_example :
    read_word bare (shell_escape (codes "it's; $x")) ≡ some (codes "it's; $x")
read-shell_escape_example = read-shell_escape (codes "it's; $x")

red_text : strip_ansi (27 ∷ codes "[31mred") ≡ codes "red"
unfolding strip_ansi strip_from is_letter
red_text = refl

red_known : color_name_to_ansi (codes "red") ≢ []
unfolding color_name_to_ansi color_table lookup_or text_eq
red_known e = cc
