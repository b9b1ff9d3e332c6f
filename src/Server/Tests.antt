-- ===== src/Server/Tests.antt =====
-- Sessions on concrete input.
use ctask.Common.{
  All, map, ◌+◌, ℕ, suc, ◌≡◌, ◌≢◌, ◌↔◌, refl, Bytes, codes, bytes_eq, is_empty, true, false, List,
  [], ◌∷◌, length, take, take_all, sym, none, some, if◌then◌else◌, arith,
}
use ctask.Common.Assoc.{lookup}
use ctask.Common.Result.{Result, ok, thrown, runtime_error, Exception}
use ctask.Utils.{
  HttpServerArgs, HttpRequest, HttpResponse, response, get_method, http_status_ok,
  connection_header, keep_alive_connection,
}
use ctask.Router.{Routed}
use ctask.Server.{IRouter, received, Turn, waiting, client_session, keeps_alive}
use ctask.Serializer.Stream.{read_stream, read_of, IsPlain}
use ctask.Server.Replies.{joined, answers_of, read_session}
use ctask.Server.Creation.{Call, servers, some_valid, servers_lem}
use ctask.Server.Session.Staying.{StayOpen, no_turn, one_more, client_session-eq-waiting_iff}
use ctask.Server.Session.{Serves, ServesAll, none_left, turn, answer_text}

abbrev pub empty_object : Bytes
empty_object = codes "{}"

abbrev kept_alive : HttpRequest
kept_alive = record {
  method = get_method;
  path = codes "/a";
  version = codes "1.1";
  headers = (connection_header, keep_alive_connection) ∷ [];
  parameters = [];
  body = [];
}

-- A parser that takes one byte for a request, and a router that counts its calls.
abbrev pub parse : Bytes → Result HttpRequest
parse (c ∷ []) = ok kept_alive
parse _ = thrown (runtime_error (codes "no"))

abbrev counting : HttpRequest → ℕ → Routed ℕ (Result HttpResponse)
counting q n = (ok (response http_status_ok (codes "[]")), q, suc n)

pub counting_noexcept : (q : HttpRequest) (n : ℕ) (e : Exception) → (counting q n).0 ≢ thrown e
counting_noexcept q n e h = cc

abbrev pub counter : IRouter ℕ
counter = record {
  route = counting;
  route_noexcept = counting_noexcept;
  route_headers = λ r w. refl;
  route_version = λ r w. refl;
}

abbrev text : Bytes
text = answer_text parse empty_object counter (response http_status_ok (codes "[]")) kept_alive

abbrev pub good : Turn
good = record { read = received (103 ∷ []); written = length text; write_error = false }

abbrev pub bad : Turn
bad = record { read = received (codes "bb"); written = 5; write_error = false }

filled : is_empty (codes "g") ≡ false
unfolding is_empty
filled = refl

kept : keeps_alive kept_alive ≡ true
unfolding keeps_alive lookup bytes_eq
kept = refl

abbrev served : (n : ℕ) → Serves parse empty_object counter good n (suc n) text
served n = record {
  raw = 103 ∷ [];
  request = kept_alive;
  routed = kept_alive;
  response = response http_status_ok (codes "[]");
  read = refl;
  filled = filled;
  parses = refl;
  routes = refl;
  kept = kept;
  whole = take_all (length text) text (omega arith);
  no_error = refl;
  answers = refl;
}

abbrev served_twice : ServesAll parse empty_object counter (good ∷ good ∷ []) 0 2 (text ∷ text ∷ [])
served_twice = turn (served 0) (turn (served 1) none_left)

plain :
    IsPlain 1
      (record { payload = response http_status_ok (codes "[]"); protocol_version = codes "1.1" })
plain = ground arith

twice-IsPlain : All (IsPlain 1) (answers_of parse empty_object counter served_twice)
unfolding answers_of
twice-IsPlain = (plain, (plain, tt))

read_session_example :
    read_stream
      (length (answers_of parse empty_object counter served_twice))
      (1 + 4)
      (joined (client_session parse empty_object counter (good ∷ good ∷ []) 0).sent)
    ≡ some (map (read_of empty_object) (answers_of parse empty_object counter served_twice))
read_session_example = read_session parse empty_object counter 1 served_twice twice-IsPlain

abbrev arguments : HttpServerArgs
arguments = record { address = codes "0.0.0.0"; port = 80; threads = 2; keep_alive_sec = 5 }

-- Threads that cannot be made, and threads that can.
abbrev no_threads : ℕ → Result (Unit {0})
no_threads n = thrown (runtime_error (codes "thread"))

abbrev threads_made : ℕ → Result (Unit {0})
threads_made n = ok tt

abbrev calls : List (Call ℕ)
calls =
    (no_threads, arguments, some counter)
    ∷ (threads_made, arguments, none)
    ∷ (threads_made, arguments, some counter)
    ∷ (threads_made, arguments, some counter)
    ∷ []

servers_lem_example : servers false calls ≡ (if some_valid calls then 1 else 0)
servers_lem_example = servers_lem calls

-- The write takes a part of the answer only, and the session reads again all the same.
abbrev cut_short : Turn
cut_short = record good { written = 9 }

client_session-eq-waiting_iff_example :
    (client_session parse empty_object counter (cut_short ∷ good ∷ []) 0
      ≡ record { sent = take 9 text ∷ text ∷ []; world = 2; ending = waiting })
    ↔ StayOpen parse empty_object counter (cut_short ∷ good ∷ []) 0 2 (take 9 text ∷ text ∷ [])
client_session-eq-waiting_iff_example =
    client_session-eq-waiting_iff parse empty_object counter (cut_short ∷ good ∷ []) 0 2
      (take 9 text ∷ text ∷ [])

stays : StayOpen parse empty_object counter (good ∷ []) 0 1 (text ∷ [])
unfolding lookup bytes_eq
stays =
    one_more
      (record {
        raw = 103 ∷ [];
        request = kept_alive;
        routed = kept_alive;
        response = response http_status_ok (codes "[]");
        read = refl;
        filled = λ e. cc;
        parses = refl;
        routes = refl;
        kept = refl;
        no_error = refl;
        answers = sym (take_all (length text) text (omega arith));
      })
      no_turn
