-- ===== src/Tests/ServerParser.antt =====
-- Requests that the server's parser accepts, filters and refuses.
use distplusplus.Base.{◌++◌, inl, ◌≡◌, refl, true, ◌↔◌, List, [], ◌∷◌, ok, err}
use distplusplus.Base.Text.{Text, codes, text_eq, is_one_of, starts_with_any}
use distplusplus.Common.Constants.{
  single_args_no_distribute, multi_args_no_distribute, single_args_no_distribute_starts_with,
  single_args_cpp, multi_args_cpp, single_args_cpp_starts_with,
}
use distplusplus.Server.Parser.Nul.{seen, parse_nul}
use distplusplus.Server.Parser.{verdict, parse, non_distributable, last_argument, not_a_compile}
use distplusplus.Server.Parser.Filters.{Filters, has_compile}
use distplusplus.Server.Parser.Outcomes.{Stops, parse-Stops, parse-eq-ok_iff}

abbrev request : List Text
request = codes "-O2" ∷ codes "-D" ∷ codes "-M" ∷ codes "-Ifoo" ∷ codes "-c" ∷ []

abbrev accepted_args : List Text
accepted_args = codes "-O2" ∷ codes "-c" ∷ []

requests_parsed :
    (parse request ≡ ok accepted_args)
    × (parse (codes "-O2" ∷ codes "-o" ∷ codes "a" ∷ []) ≡ err not_a_compile)
    × (parse (codes "-c" ∷ codes "-MF" ∷ []) ≡ err (last_argument (codes "-MF")))
unfolding parse verdict text_eq is_one_of starts_with_any single_args_no_distribute
    multi_args_no_distribute single_args_no_distribute_starts_with single_args_cpp multi_args_cpp
    single_args_cpp_starts_with
requests_parsed = (refl, refl, refl)

parse-Stops_example : Stops request (parse request)
parse-Stops_example = parse-Stops request

parse-eq-ok_iff_example :
    (parse request ≡ ok accepted_args)
    ↔ (Filters request accepted_args × (has_compile accepted_args ≡ true))
parse-eq-ok_iff_example = parse-eq-ok_iff request accepted_args

listed : is_one_of (codes "-E") single_args_no_distribute ≡ true
unfolding is_one_of text_eq single_args_no_distribute
listed = refl

request_parsed : parse request ≡ ok accepted_args
request_parsed = requests_parsed.0

parse_nul_example :
    (parse (codes "-E" ∷ request) ≡ err (non_distributable (codes "-E")))
    × (parse ((codes "-E" ++ (0 ∷ [])) ∷ request) ≡ ok ((codes "-E" ++ (0 ∷ [])) ∷ accepted_args))
    × (seen (λ p. []) ((codes "-E" ++ (0 ∷ [])) ∷ accepted_args)
        ≡ codes "-E" ∷ seen (λ p. []) accepted_args)
parse_nul_example =
    parse_nul (λ p. []) (codes "-E") request accepted_args (inl listed) request_parsed
