-- ===== src/Timers/Cleared.antt =====
-- About js_clearTimeout behind js_setTimeout.
use mquickjs_port.Base.{
  ℕ, zero, suc, ◌+◌, ◌<◌, ◌≡◌, refl, ap, sym, ◌∙◌, arith, if◌then◌else◌, Bool, true, false, List,
  [], ◌∷◌, length, Option, none, some, inl, inr, Bool-cases, leb, ltb, ◌&&◌,
}
use mquickjs_port.Base.Int.{ℤ, pos, ◌+ℤ◌}
use mquickjs_port.Timers.{
  Timer, release, Reply, too_many_timers, undefined, new_timer, js_set_timeout, js_clear_timeout,
  max_timers,
}
use mquickjs_port.Timers.Table.{place, put, js_set_timeout_lem}

id_of : Reply → ℕ
id_of (new_timer id) = id
id_of _ = 0

module _ {V : Type 0} where
  reply_of : Reply × List (Timer V) → Reply
  reply_of (reply, timers) = reply

  -- The timers that are set: their ids, functions and times.
  abbrev pub pending : ℕ → List (Timer V) → List (ℕ × V × ℤ)
  pending i [] = []
  pending i (th ∷ timers) =
      if th.allocated
      then (i, th.func, th.timeout) ∷ pending (suc i) timers
      else pending (suc i) timers

  is_set : Option (Timer V) → Bool
  is_set none = false
  is_set (some th) = th.allocated

  release-put :
      (i id : ℕ) (th timer : Timer V) (timers : List (Timer V))
      → place id timers ≡ some th
      → th.allocated ≡ false
      → pending i (release id (put id timer timers)) ≡ pending i timers
  unfolding release is_set
  release-put i id th timer [] h free = refl
  release-put i zero th timer (th' ∷ timers) h free =
      let free' : th'.allocated ≡ false = ap is_set h ∙ free in rw free' refl
  release-put i (suc id) th timer (th' ∷ timers) h free = elim (Bool-cases th'.allocated) [
    | inl taken ↦ rw taken (
        ap (λ (t : List (ℕ × V × ℤ)). (i, th'.func, th'.timeout) ∷ t)
          (release-put (suc i) id th timer timers h free))
    | inr free' ↦ rw free' (release-put (suc i) id th timer timers h free)
  ]

  place-lt :
      (id : ℕ) (th : Timer V) (timers : List (Timer V))
      → place id timers ≡ some th
      → id < length timers
  place-lt id th [] h = ground arith
  place-lt zero th (th' ∷ timers) h = omega arith
  place-lt (suc id) th (th' ∷ timers) h = omega (arith, place-lt id th timers h)

  -- When `setTimeout` for a function puts a timer into the table of 16 places and returns an id,
  -- `clearTimeout` of that id returns `undefined` and leaves the timers that were set before, with
  -- their ids, functions and times.
  pub clear_of_set :
      (is_function : V → Bool) (now : ℕ) (func : V) (ms : ℤ) (timers timers' : List (Timer V))
      (id : ℕ)
      → is_function func ≡ true
      → length timers ≡ max_timers
      → js_set_timeout is_function now func (some ms) timers ≡ (new_timer id, timers')
      → ((js_clear_timeout (some (pos id)) timers').0 ≡ undefined)
        × (pending 0 (js_clear_timeout (some (pos id)) timers').1 ≡ pending 0 timers)
  unfolding js_clear_timeout id_of reply_of
  clear_of_set is_function now func ms timers timers' id h len e =
      elim (js_set_timeout_lem is_function now func ms timers h) [
        | inl (full, e') ↦
            let reply : too_many_timers ≡ new_timer id = ap reply_of (sym e' ∙ e) in
            absurd (ground arith)
        | inr (id', th, here, free, some_free, e') ↦
            let same : id' ≡ id = ap (λ (t : Reply × List (Timer V)). id_of t.0) (sym e' ∙ e) in
            let table : put id' (record { allocated = true; func = func; timeout = pos now +ℤ ms })
                  timers
                ≡ timers' =
              ap (λ (t : Reply × List (Timer V)). t.1) (sym e' ∙ e) in
            let below : (leb 0 (id + 0) && ltb (id + 0) 16) ≡ true =
              ground (arith, place-lt id' th timers here) in
            (
              refl,
              rw below (
                  ap (λ (t : List (Timer V)). pending 0 (release id t)) (sym table)
                  ∙ rw (sym same) (
                      release-put 0 id' th
                        (record { allocated = true; func = func; timeout = pos now +ℤ ms }) timers
                        here free)),
            )
      ]
