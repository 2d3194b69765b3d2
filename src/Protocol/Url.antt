-- ===== src/Protocol/Url.antt =====
-- The parsers of the request target in `src/protocol/h1/parser/primitives.rs`.
use kawa.Prelude.{
  codes, ℕ, Bool, true, false, ◌&&◌, Option, none, some, [], ◌∷◌, ◌++◌, ◌==◌, if◌then◌else◌, Bytes,
  length, get_elem?, replicate,
}
use kawa.Storage.Span.{Span}
use kawa.Storage.Store.{Store, empty, static, new_slice}
use kawa.Protocol.Nom.{IResult, ok, incomplete, error, failure, ◌>>=◌, Nom}
use kawa.Protocol.Lookup.{compare_no_case}

-- The rows of each table as the source writes them; the bytes that are not ASCII are all 0.
abbrev scheme_char_map : Bytes
scheme_char_map =
    codes ("0000000000000000")
    ++ (codes ("0000000000000000")
        ++ (codes ("0000000000010110")
            ++ (codes ("1111111111000000")
                ++ (codes ("0111111111111111")
                    ++ (codes ("1111111111100000")
                        ++ (codes ("0111111111111111")
                            ++ (codes ("1111111111100000") ++ replicate 128 b'0')))))))

abbrev authority_char_map : Bytes
authority_char_map =
    codes ("0000000000000000")
    ++ (codes ("0000000000000000")
        ++ (codes ("0110111111111110")
            ++ (codes ("1111111111111110")
                ++ (codes ("1111111111111111")
                    ++ (codes ("1111111111111111")
                        ++ (codes ("1111111111111111")
                            ++ (codes ("1111111111111110") ++ replicate 128 b'0')))))))

abbrev userinfo_char_map : Bytes
userinfo_char_map =
    codes ("0000000000000000")
    ++ (codes ("0000000000000000")
        ++ (codes ("0110111111111110")
            ++ (codes ("1111111111111110")
                ++ (codes ("0111111111111111")
                    ++ (codes ("1111111111110111")
                        ++ (codes ("1111111111111111")
                            ++ (codes ("1111111111111110") ++ replicate 128 b'0')))))))

is_set : Option ℕ → Bool
is_set (some bit) = bit == b'1'
is_set none = false

unfoldable pub is_scheme_char : ℕ → Bool
unfolding is_set
is_scheme_char c = is_set (get_elem? scheme_char_map c)

unfoldable pub is_authority_char : ℕ → Bool
unfolding is_set
is_authority_char c = is_set (get_elem? authority_char_map c)

unfoldable pub is_userinfo_char : ℕ → Bool
unfolding is_set
is_userinfo_char c = is_set (get_elem? userinfo_char_map c)

-- `&[]`, which the callers never look at.
abbrev nothing : Span
nothing = record { addr = 1; bytes = [] }

unfoldable pub parse_authority_form : Span → Span → IResult (Store × Store)
parse_authority_form buffer i = ok nothing (new_slice buffer i, static (codes "/"))

unfoldable pub parse_origin_form : Span → Span → IResult (Store × Store)
parse_origin_form buffer i = ok nothing (empty, new_slice buffer i)

absolute_path : Span → Bytes → Span → Store
absolute_path buffer empty_path_replacer path =
    if length path.bytes == 0 then static empty_path_replacer else new_slice buffer path

-- `==` on bytes
equal : Bytes → Bytes → Bool
equal [] [] = true
equal (a ∷ left) (b ∷ right) = (a == b) && equal left right
equal _ _ = false

module _ (nom : Nom) where
  unfoldable pub userinfo : Span → IResult Span
  userinfo i = do
    (i, info) ← nom.take_while_complete is_userinfo_char i
    (i, _) ← nom.char_complete b'@' i
    ok i info

  unfoldable pub parse_absolute_form : Span → Span → Bytes → IResult (Store × Store)
  unfolding userinfo absolute_path
  parse_absolute_form buffer i empty_path_replacer = do
    (i, _) ← nom.take_while_complete is_scheme_char i
    (i, _) ← nom.tag_complete (codes "://") i
    (i, _) ← nom.opt Span userinfo i
    (path, authority) ← nom.take_while_complete is_authority_char i
    ok nothing (new_slice buffer authority, absolute_path buffer empty_path_replacer path)

  -- `c` is `i[0]`.
  unfoldable pub parse_asterisk_form : Span → Span → ℕ → IResult (Store × Store)
  unfolding equal parse_origin_form parse_absolute_form
  parse_asterisk_form buffer i c =
      if equal i.bytes (codes "*")
      then ok i (empty, static (codes "*"))
      else if c == b'/'
      then parse_origin_form buffer i
      else parse_absolute_form buffer i (codes "*")

  url_result : IResult (Store × Store) → Option (Store × Store)
  url_result (ok i url) = some url
  url_result incomplete = none
  url_result (error i) = none
  url_result (failure i) = none

  -- The forms at a target that is not empty, with `c` its first byte.
  parse_form : Span → Bytes → Span → ℕ → IResult (Store × Store)
  unfolding parse_asterisk_form parse_authority_form parse_origin_form parse_absolute_form
      compare_no_case
  parse_form buffer method i c =
      if compare_no_case method (codes "OPTIONS")
      then parse_asterisk_form buffer i c
      else if compare_no_case method (codes "CONNECT")
      then parse_authority_form buffer i
      else if c == b'/'
      then parse_origin_form buffer i
      else parse_absolute_form buffer i (codes "/")

  parse_target : Span → Bytes → Span → Bytes → Option (Store × Store)
  parse_target buffer method i [] = some (empty, static (codes "/"))
  parse_target buffer method i (c ∷ cs) = url_result (parse_form buffer method i c)

  unfoldable pub parse_url : Span → Bytes → Span → Option (Store × Store)
  unfolding parse_target url_result parse_form
  parse_url buffer method i = parse_target buffer method i i.bytes
