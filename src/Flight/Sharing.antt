-- ===== src/Flight/Sharing.antt =====
-- Which results of server/internal/flight/flight.go are shared with later callers.
use auth_middleware.Prelude.{
  String, ◌≡◌, refl, inl, inr, true, Option, none, some, arith, ap, sym, ◌∙◌, eq_refl, Option-cases,
}
use auth_middleware.Prelude.State.{Result, ok, err, M}
use auth_middleware.Cache.{Otter, OtterLaws}
use auth_middleware.Flight.{
  Outcome, Stored, RedisStore, cached, store_local, do_local, do_distributed, unmarshalled,
  load_result, after_load, under_lock, run_locked,
}

-- The memory is the part of the world that `change` changes.
pub record MemoryLaws {W C V : Type 0} (otter : Otter C V) (memory_of : W → C)
    (change : (C → C) → W → W) : Type 0 where
  pub otter_laws : OtterLaws otter
  pub memory_of-change : (f : C → C) (w : W) → memory_of (change f w) ≡ f (memory_of w)

module _ {W C V E T : Type 0} (stored : Stored V T) (otter : Otter C V) (memory_of : W → C)
    (change : (C → C) → W → W) (laws : MemoryLaws otter memory_of change) (key : String)
    (fn : M W (Outcome E T)) where
  abbrev local : M W (Outcome E T) → M W (Outcome E T)
  local = do_local stored otter memory_of change key

  local-hit :
      (g : M W (Outcome E T)) (w : W) (v : T)
      → cached stored (otter.get_if_present key (memory_of w)) ≡ some v
      → local g w ≡ (record { value = v; failure = none }, w)
  unfolding do_local
  local-hit g w v hit = rw (hit, do_local) refl

  -- What `fn` reports where there was no result before.
  local-miss :
      (w : W)
      → cached stored (otter.get_if_present key (memory_of w)) ≡ none
      → local fn w ≡ store_local stored otter change key (fn w).0 (fn w).1
  unfolding do_local
  local-miss w miss = rw (miss, do_local) refl

  store_local-outcome : (o : Outcome E T) (w : W) → (store_local stored otter change key o w).0 ≡ o
  unfolding store_local
  store_local-outcome o w = ground arith

  store_local-ok :
      (o : Outcome E T) (w : W)
      → o.failure ≡ none
      → (store_local stored otter change key o w).1
        ≡ change (otter.set key (stored.as_any o.value)) w
  unfolding store_local
  store_local-ok o w fine = ground arith

  store_local-failed :
      (o : Outcome E T) (e : E) (w : W)
      → o.failure ≡ some e
      → (store_local stored otter change key o w).1 ≡ w
  unfolding store_local
  store_local-failed o e w failure = ground arith

  stored-hit :
      ((v : T) → stored.assert (stored.as_any v) ≡ some v)
      → (v : T) (w : W)
      → cached stored
          (otter.get_if_present key (memory_of (change (otter.set key (stored.as_any v)) w)))
        ≡ some v
  unfolding cached
  stored-hit round v w = ground (
    arith,
    laws.memory_of-change (otter.set key (stored.as_any v)) w,
    laws.otter_laws.get-set key key (stored.as_any v) (memory_of w),
    eq_refl key,
    round v,
  )

  -- A result without an error is shared: under the laws of otter, and where a result is read back
  -- from the cache as it was stored, a later caller of the key gets it and its own function is not
  -- run, as long as the entry is there.
  pub do_local-shares :
      ((v : T) → stored.assert (stored.as_any v) ≡ some v)
      → (g : M W (Outcome E T)) (o : Outcome E T) (w w' : W) → local fn w ≡ (o, w')
      → o.failure ≡ none
      → local g w' ≡ (o, w')
  do_local-shares round g o w w' run fine =
      local-hit g w' o.value at_end ∙ (λ i. (record { value = o.value; failure = sym fine i }, w'))
    where
      at_end : cached stored (otter.get_if_present key (memory_of w')) ≡ some o.value
      at_end = elim (Option-cases (cached stored (otter.get_if_present key (memory_of w)))) [
        | inl miss ↦
            let ran = sym run ∙ local-miss w miss in
            let same : (fn w).0 ≡ o =
              sym (ap (λ (r : Outcome E T × W). r.0) ran ∙ store_local-outcome (fn w).0 (fn w).1) in
            let next : w' ≡ change (otter.set key (stored.as_any o.value)) (fn w).1 =
              ap (λ (r : Outcome E T × W). r.1) ran
              ∙ ap (λ x. (store_local stored otter change key x (fn w).1).1) same
              ∙ store_local-ok o (fn w).1 fine in
            ap (λ x. cached stored (otter.get_if_present key (memory_of x))) next
            ∙ stored-hit round o.value (fn w).1
        | inr (v, hit) ↦
            let ran = sym run ∙ local-hit fn w v hit in
            ap (λ (r : Outcome E T × W). cached stored (otter.get_if_present key (memory_of r.1)))
              ran
            ∙ hit
            ∙ ap (λ (r : Outcome E T × W). some r.0.value) (sym ran)
      ]

  -- A result with an error is not shared: it is what the function returned at this call, and the
  -- world is as the function left it.
  pub do_local-failure :
      (o : Outcome E T) (e : E) (w w' : W)
      → local fn w ≡ (o, w')
      → o.failure ≡ some e
      → fn w ≡ (o, w')
  do_local-failure o e w w' run failure =
      elim (Option-cases (cached stored (otter.get_if_present key (memory_of w)))) [
        | inl miss ↦
            let ran = sym run ∙ local-miss w miss in
            let same : (fn w).0 ≡ o =
              sym (ap (λ (r : Outcome E T × W). r.0) ran ∙ store_local-outcome (fn w).0 (fn w).1) in
            let kept =
              ap (λ (r : Outcome E T × W). r.1) ran
              ∙ store_local-failed (fn w).0 e (fn w).1
                  (ap (λ (x : Outcome E T). x.failure) same ∙ failure) in
            (λ i. (same i, sym kept i))
        | inr (v, hit) ↦
            let ran = sym run ∙ local-hit fn w v hit in
            let none_at = ap (λ (r : Outcome E T × W). r.0.failure) ran in absurd (ground arith)
      ]

module _ {W V E T : Type 0} (stored : Stored V T) (r : RedisStore W) (hashed_key : String)
    (fn : M W (Outcome E T)) where
  -- An in-flight-only call that finds a result from before it started asks for the lock and runs
  -- its own function, with or without the lock, returns what that returns and leaves the result
  -- that was there: the only thing it does afterwards is to release the lock, if it had it.
  pub do_distributed-replay :
      (raw : String) (v : T) (w w1 : W)
      → r.load hashed_key w ≡ (ok (some raw), w1)
      → stored.unmarshal raw ≡ ok v
      → let locked = r.lock hashed_key w1 in
        let o = fn locked.1 in
        do_distributed stored r hashed_key true fn w
        ≡ (o.0, elim locked.0 [ err e ↦ o.1 | ok u ↦ (r.unlock hashed_key o.1).1 ])
  unfolding do_distributed load_result unmarshalled after_load under_lock run_locked
  do_distributed-replay raw v w w1 loads parses =
      ap
        (λ (p : Result (Option String) × W).
          after_load stored r hashed_key true fn (unmarshalled stored p.0) p.1)
        loads
      ∙ ap (λ (x : Result (Option T)). after_load stored r hashed_key true fn x w1) found
      ∙ at_lock (r.lock hashed_key w1).0 (r.lock hashed_key w1).1
    where
      found : unmarshalled stored (ok (some raw)) ≡ ok (some v)
      found = ground arith

      at_lock :
          (locked : Result (Unit {0})) (w2 : W)
          → under_lock stored r hashed_key true fn locked w2 ≡ (
            (fn w2).0,
            elim locked [ err e ↦ (fn w2).1 | ok u ↦ (r.unlock hashed_key (fn w2).1).1 ],
          )
      at_lock (err e) w2 = refl
      at_lock (ok u) w2 = refl
