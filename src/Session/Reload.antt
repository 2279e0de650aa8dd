-- ===== src/Session/Reload.antt =====
-- A reload of the page keeps the session, as far as sessionStorage works.
-- The calls of the store that a page makes.
use sentinel_project.Base.{
  Bool, List, Option, String, [], false, if◌then◌else◌, none, refl, sym, true, ◌∙◌, ◌∷◌, ◌≡◌,
}
use sentinel_project.Session.{
  TokenStore, clear, get, loaded, read_through, read_unless, reload, set,
}

pub data Call : Type 0 where
  getting : Call
  setting : String → Call
  clearing : Call

unfoldable pub run : Call → TokenStore → TokenStore
unfolding read_through set clear
run getting s = read_through s
run (setting v) s = set v s
run clearing s = clear s

unfoldable pub run_all : List Call → TokenStore → TokenStore
unfolding run
run_all [] s = s
run_all (c ∷ cs) s = run_all cs (run c s)

-- Where sessionStorage works, it holds what `get` returns; and before the first call there is no
-- token in memory.
record InStep (s : TokenStore) : Type 0 where
  works : s.available ≡ true
  held : s.restored ≡ true → s.stored ≡ s.token
  fresh : s.restored ≡ false → s.token ≡ none

read_stored :
    (b : Bool) (s : TokenStore) → s.restored ≡ b → InStep s → (read_unless b s).token ≡ s.stored
unfolding read_unless
read_stored true s e h = sym (h.held e)
read_stored false s e h = rw (h.fresh e, h.works, if◌then◌else◌) refl

get_stored : (s : TokenStore) → InStep s → get s ≡ s.stored
unfolding get read_through
get_stored s h = read_stored s.restored s refl h

read_unless-InStep :
    (b : Bool) (s : TokenStore) → s.restored ≡ b → InStep s → InStep (read_unless b s)
unfolding read_unless
read_unless-InStep true s e h = h
read_unless-InStep false s e h = record {
  works = h.works;
  held = λ k. rw (h.fresh e, h.works, if◌then◌else◌) refl;
  fresh = λ k. cc;
}

run-InStep : (c : Call) (s : TokenStore) → InStep s → InStep (run c s)
unfolding run read_through set clear
run-InStep getting s h = read_unless-InStep s.restored s refl h
run-InStep (setting v) s h = record {
  works = h.works;
  held = λ k. rw (h.works, if◌then◌else◌) refl;
  fresh = λ k. cc;
}
run-InStep clearing s h = record {
  works = h.works;
  held = λ k. rw (h.works, if◌then◌else◌) refl;
  fresh = λ k. cc;
}

run_all-InStep : (cs : List Call) (s : TokenStore) → InStep s → InStep (run_all cs s)
unfolding run_all
run_all-InStep [] s h = h
run_all-InStep (c ∷ cs) s h = run_all-InStep cs (run c s) (run-InStep c s h)

loaded-InStep : (stored : Option String) → InStep (loaded stored true)
loaded-InStep stored = record { works = refl; held = λ k. cc; fresh = λ k. refl }

-- Where sessionStorage works, a reload of the page at any time, after any calls of the store, does
-- not change the token that the next `get` returns.
pub reload-get :
    (stored : Option String) (cs : List Call)
    → get (reload (run_all cs (loaded stored true))) ≡ get (run_all cs (loaded stored true))
reload-get stored cs =
    let s = run_all cs (loaded stored true) in
    let h = run_all-InStep cs (loaded stored true) (loaded-InStep stored) in
    let again : InStep (reload s) = record { works = h.works; held = λ k. cc; fresh = λ k. refl } in
    get_stored (reload s) again ∙ sym (get_stored s h)
