-- ===== src/Directory/Models.antt =====
-- src/client.cpp: list_models and set_on_list_models, as the critical sections of their locks. A
-- handler is named by what it comes to.
use copilot_cpp.Prelude.{Option, none, some, String, ◌≡◌, refl}
use copilot_cpp.Prelude.Exec.{Result, ok, err}

module _ (M : Type 0) where
  -- `models_cache_` and `on_list_models_`
  pub record Models : Type 0 where
    pub cache : Option M
    pub handler : Option (Result String M)

module _ {M : Type 0} where
  -- list_models: the cache is read
  abbrev pub read_cache : Models M → Option M
  read_cache c = c.cache

  -- list_models: the handler is copied; without one the models come from the runtime, whose answer,
  -- or the exception of the connection, is a parameter
  unfoldable pub fetch : Result String M → Models M → Result String M
  fetch from_runtime c = elim c.handler [ some h ↦ h | none ↦ from_runtime ]

  -- list_models: what was fetched is kept
  unfoldable pub keep : Result String M → Models M → Result String M × Models M
  keep (ok m) c = (ok m, record c { cache = some m })
  keep (err what) c = (err what, c)

  -- list_models, where no other thread comes between
  unfoldable pub list_cached : Option M → Result String M → Models M → Result String M × Models M
  unfolding fetch keep
  list_cached (some m) from_runtime c = (ok m, c)
  list_cached none from_runtime c = keep (fetch from_runtime c) c

  unfoldable pub list_models : Result String M → Models M → Result String M × Models M
  unfolding list_cached
  list_models from_runtime c = list_cached (read_cache c) from_runtime c

  -- set_on_list_models
  unfoldable pub set_on_list_models : Option (Result String M) → Models M → Models M
  set_on_list_models h c = record { cache = none; handler = h }

  -- When a new handler that returns `new` is set, the next list_models gives `new`. But where a
  -- list_models has taken the old handler, which returns `old`, before the new one is set, and keeps
  -- its result afterwards, the next list_models gives `old`.
  pub set_on_list_models_race :
      (old new : M) (from_runtime : Result String M) (c : Models M)
      → c.handler ≡ some (ok old)
      → let set = set_on_list_models (some (ok new)) c in
        let late = (keep (fetch from_runtime c) set).1 in
        ((list_models from_runtime set).0 ≡ ok new) × ((list_models from_runtime late).0 ≡ ok old)
  unfolding set_on_list_models list_models list_cached keep fetch
  set_on_list_models_race old new from_runtime c h = (refl, rw h refl)
