-- ===== src/Dns/Tests.antt =====
-- A forwarder over a small codec, whose world is the list of addresses asked.
use go_run.Prelude.{
  ℕ, suc, ◌∙◌, sym, ap, ◌≡◌, ◌≢◌, ◌↔◌, ◌⊎◌, refl, String, true, false, Option, none, some, List, [],
  ◌∷◌, ◌++◌, if◌then◌else◌, arith,
}
use go_run.Strings.{◌<>◌, has_suffix, trim_space, has_prefix, trim_prefix_char}
use go_run.Dns.Suffix.{direct, exit, classify, classify_iff, default_ru_suffixes, InSomeZone}
use go_run.Dns.Forward.{Msg, udp, tcp, Exchanger, Forwarder, forward, is_truncated}
use go_run.Dns.Forward.Origin.{ByUdp, ByTcp, Delivers, forward_iff}
use go_run.Dns.Server.{DnsLibrary, process_query, handle_tcp, frame}
use go_run.Dns.Server.Private.{
  AsksFor, with_direct, with_exit, process_query-exit, process_query-direct, IsDomestic,
}
use go_run.Dns.Server.Answers.{
  Answers, FailuresPack, process_query-Answers, process_query-answers_iff,
}
use go_run.Dns.Server.Framing.{unframe, handle_tcp-frame}

abbrev message : ℕ → String → Msg (Unit {0})
message id name = record {
  id = id;
  questions = name ∷ [];
  truncated = false;
  rcode = 0;
  packed = none;
  rest = tt;
}

-- A query is its id and one byte: 1 asks for yandex.ru, any other for example.com.
abbrev unpack : List ℕ → Option (Msg (Unit {0}))
unpack (id ∷ suc ℕ.zero ∷ []) = some (message id "yandex.ru.")
unpack (id ∷ kind ∷ []) = some (message id "example.com.")
unpack bytes = none

abbrev lib : DnsLibrary (Unit {0})
lib = record {
  unpack = unpack;
  pack = λ m. some (m.id ∷ m.rcode ∷ []);
  copy = λ m. m;
  set_reply = λ m. m;
  copy_questions = λ m. refl;
  set_reply_id = λ m. refl;
}

-- A resolver that truncates over UDP, so every query is sent twice
abbrev resolver : Exchanger (Unit {0}) (List String)
resolver w m udp address = (
  record { reply = some (record m { truncated = true }); error = none; left = some [] },
  address ∷ w,
)
resolver w m tcp address = (record { reply = some m; error = none; left = none }, address ∷ w)

abbrev broken : Exchanger (Unit {0}) (List String)
broken w m network address = (record { reply = none; error = some "refused"; left = none }, w)

-- Names made canonical: a final dot is added.
abbrev canonical : String → String
canonical s = if has_suffix s "." then s else s <> "."

abbrev server : Forwarder (Unit {0}) (List String)
server = record {
  canonical = canonical;
  suffixes = default_ru_suffixes;
  direct_upstream = "d";
  exit_upstream = "x";
  direct_ex = resolver;
  exit_ex = resolver;
}

served_exit : process_query lib server [] (7 ∷ 0 ∷ []) ≡ (some (7 ∷ 0 ∷ []), "x" ∷ "x" ∷ [])
unfolding process_query forward classify trim_space has_prefix has_suffix trim_prefix_char
    is_truncated
served_exit = refl

served_direct : process_query lib server [] (7 ∷ 1 ∷ []) ≡ (some (7 ∷ 0 ∷ []), "d" ∷ "d" ∷ [])
unfolding process_query forward classify trim_space has_prefix has_suffix trim_prefix_char
    is_truncated
served_direct = refl

malformed : process_query lib server [] [] ≡ (none, [])
unfolding process_query
malformed = refl

yandex_direct : classify canonical default_ru_suffixes "yandex.ru." ≡ direct
unfolding classify trim_space has_prefix has_suffix trim_prefix_char
yandex_direct = refl

classify_iff_example :
    (classify canonical default_ru_suffixes "yandex.ru." ≡ direct)
    ↔ InSomeZone canonical default_ru_suffixes (canonical (trim_space "yandex.ru."))
classify_iff_example = classify_iff canonical default_ru_suffixes "yandex.ru."

asks_yandex : AsksFor lib (λ name. IsDomestic server name) (7 ∷ 1 ∷ [])
asks_yandex = (
  message 7 "yandex.ru.",
  "yandex.ru.",
  refl,
  refl,
  (classify_iff canonical default_ru_suffixes "yandex.ru.").0 yandex_direct,
)

example_exit : classify canonical default_ru_suffixes "example.com." ≡ exit
unfolding classify trim_space has_prefix has_suffix trim_prefix_char
example_exit = refl

exit-not-direct : exit ≢ direct
exit-not-direct e = cc

asks_example : AsksFor lib (λ name. ¬ IsDomestic server name) (7 ∷ 0 ∷ [])
asks_example = (
  message 7 "example.com.",
  "example.com.",
  refl,
  refl,
  λ inside.
      exit-not-direct
        (sym example_exit ∙ (classify_iff canonical default_ru_suffixes "example.com.").1 inside),
)

process_query-exit_example :
    process_query lib (with_direct broken "elsewhere" server) [] (7 ∷ 0 ∷ [])
    ≡ process_query lib server [] (7 ∷ 0 ∷ [])
process_query-exit_example =
    process_query-exit lib server [] (7 ∷ 0 ∷ []) broken "elsewhere" asks_example

process_query-direct_example :
    process_query lib (with_exit broken "elsewhere" server) [] (7 ∷ 1 ∷ [])
    ≡ process_query lib server [] (7 ∷ 1 ∷ [])
process_query-direct_example =
    process_query-direct lib server [] (7 ∷ 1 ∷ []) broken "elsewhere" asks_yandex

process_query-Answers_example :
    (req : Msg (Unit {0})) × (unpack (7 ∷ 0 ∷ []) ≡ some req) × Answers lib req (7 ∷ 0 ∷ [])
process_query-Answers_example =
    process_query-Answers lib server [] (7 ∷ 0 ∷ []) (7 ∷ 0 ∷ []) (ap (λ r. r.0) served_exit)

failures_pack : (req : Msg (Unit {0})) → unpack (7 ∷ 0 ∷ []) ≡ some req → FailuresPack lib req
failures_pack req e = record {
  format_error = (req.id ∷ 1 ∷ [], refl);
  server_failure = (req.id ∷ 2 ∷ [], refl);
}

process_query-answers_iff_example :
    ((out : List ℕ) × ((process_query lib server [] (7 ∷ 0 ∷ [])).0 ≡ some out))
    ↔ ((req : Msg (Unit {0})) × (unpack (7 ∷ 0 ∷ []) ≡ some req))
process_query-answers_iff_example =
    process_query-answers_iff lib server [] (7 ∷ 0 ∷ []) failures_pack

forward_iff_example :
    Delivers (forward server [] (message 7 "yandex.ru.")).0 (message 7 "yandex.ru.") ↔ (
      ByUdp resolver "d" [] (message 7 "yandex.ru.") (message 7 "yandex.ru.")
      ⊎ ByTcp resolver "d" [] (message 7 "yandex.ru.") (message 7 "yandex.ru."))
forward_iff_example =
    forward_iff server [] (message 7 "yandex.ru.") (message 7 "yandex.ru.") "yandex.ru." direct refl
      yandex_direct (λ e. cc)

handle_tcp-frame_example :
    ((handle_tcp lib server [] (frame (7 ∷ 0 ∷ []) ++ (9 ∷ []))).1 ≡ "x" ∷ "x" ∷ [])
    × (unframe (handle_tcp lib server [] (frame (7 ∷ 0 ∷ []) ++ (9 ∷ []))).0
        ≡ some (7 ∷ 0 ∷ [], []))
handle_tcp-frame_example =
    handle_tcp-frame lib server [] ("x" ∷ "x" ∷ []) (7 ∷ 0 ∷ []) (9 ∷ []) (7 ∷ 0 ∷ []) (omega arith)
      (omega arith) served_exit (omega arith)
