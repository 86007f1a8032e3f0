-- ===== src/Tests/Dedupe.antt =====
-- apps/gateway/src/lib/dedupe.ts: a dedupe with room for two keys.
use text.Mathlib.Text.{◌==◌ as str_eq}
use text.Mathlib.TextEquality.{eq_iff}
use opencode_notify_hub.Shared.{
  ◌<◌, String, ◌≡◌, refl, ◌≢◌, true, none, some, [], ◌∷◌, arith, String-discrete,
}
use opencode_notify_hub.Shared.OrdMap.{size, get, delete, set}
use opencode_notify_hub.Gateway.Dedupe.{
  EventDedupe, begin, commit, succeed, fail, duplicate, owns, evict_expired, evict_oldest,
}
use opencode_notify_hub.Gateway.Dedupe.Committed.{get-commit_live, Since, begin-succeed}
use opencode_notify_hub.Gateway.Dedupe.Flights.{
  Calls, none_yet, begins, running, running-in_flight, begin-fail, flag,
}

abbrev start : EventDedupe
start = record {
  ttl_ms = 100;
  max_size = 2;
  committed = ("u a", 150) ∷ ("u b", 90) ∷ [];
  in_flight = [];
}

-- A dispatch of "u c" is under way.
abbrev called : EventDedupe
called = record start { in_flight = ("u c", tt) ∷ [] }

begin-start : begin 95 "u c" start ≡ (called, owns)
unfolding begin get set String-discrete
begin-start = refl

-- A commit at 95 drops the expired key, not the oldest.
commit_expired : (commit 95 "u c" start).committed ≡ ("u a", 150) ∷ ("u c", 195) ∷ []
unfolding commit evict_expired evict_oldest get set delete String-discrete
commit_expired = refl

-- A burst of live keys drops the oldest live one.
commit_burst : get "u a" (commit 80 "u c" start).committed ≡ none
unfolding commit evict_expired evict_oldest get set delete String-discrete
commit_burst = refl

a_ne_c : ◌≢◌ {A = String} "u a" "u c"
a_ne_c e = let same : str_eq "u a" "u c" ≡ true = (eq_iff "u a" "u c").1 e in ground arith

one_live : size (evict_expired 95 (delete "u c" start.committed)) < 2
unfolding evict_expired delete String-discrete
one_live = omega arith

get-commit_live_example : get "u a" (commit 95 "u c" start).committed ≡ some 150
unfolding get String-discrete
get-commit_live_example =
    get-commit_live 95 "u c" start (omega arith) "u a" 150 a_ne_c refl (omega arith) one_live

c_ne_d : ◌≢◌ {A = String} "u c" "u d"
c_ne_d e = let same : str_eq "u c" "u d" ≡ true = (eq_iff "u c" "u d").1 e in ground arith

-- After "u c" is committed at 95, "u d" is dispatched at 155, when "u a" has expired.
abbrev meanwhile : EventDedupe
meanwhile = succeed 155 "u d" (begin 150 "u d" (succeed 95 "u c" called)).0

room_for_d :
    size (evict_expired 155 (delete "u d" (begin 150 "u d" (succeed 95 "u c" called)).0.committed))
    < 2
unfolding begin succeed commit evict_expired evict_oldest get set delete String-discrete
room_for_d = omega arith

run_c : Since "u c" 195 (succeed 95 "u c" called) meanwhile
unfolding succeed commit begin get set delete String-discrete evict_expired evict_oldest
run_c =
    Since.succeeds 155 "u d" (Since.begins 150 "u d" Since.at_once) c_ne_d (omega arith) room_for_d

begin-succeed_example : begin 190 "u c" meanwhile ≡ (meanwhile, duplicate)
begin-succeed_example =
    begin-succeed 95 190 "u c" called meanwhile (omega arith) (omega arith) run_c (omega arith)

-- Two calls of one key, the second waiting for the first's dispatch.
calls : Calls start called ("u c" ∷ [])
unfolding begin get set String-discrete
calls = begins 96 "u c" (begins 95 "u c" none_yet)

running-in_flight_example : running "u c" ("u c" ∷ []) ≡ flag (get "u c" called.in_flight)
running-in_flight_example = running-in_flight start called ("u c" ∷ []) "u c" refl calls

begin-fail_example :
    ((fail "u c" called).committed ≡ called.committed)
    × ((begin 96 "u c" (fail "u c" called)).1 ≡ owns)
unfolding get String-discrete
begin-fail_example = begin-fail 96 "u c" called
