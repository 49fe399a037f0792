-- ===== src/Directory/Building/Defaults.antt =====
-- src/client.cpp: what a request of the empty mode holds for the fields that have a restrictive default.
use mathlib.Core.Option.{some-injective}
use copilot_cpp.Prelude.{
  first_some, Bool, true, false, Option, none, some, String, List, [], ◌∷◌, ◌++◌, map, ◌≡◌, refl,
  sym, ap, ◌∙◌, if◌then◌else◌, Bool-cases, Option-cases, inl, inr, All,
}
use copilot_cpp.Prelude.Text.{str_eq, lookup, eq_iff}
use copilot_cpp.Prelude.Exec.{Result, ok, err, ok-injective}
use copilot_cpp.Prelude.Try.{◌>>◌}
use copilot_cpp.Json.{Json}
use copilot_cpp.Launch.{empty}
use copilot_cpp.Directory.Config.{
  copied, ConfigField, enable_session_telemetry, mcp_oauth_token_storage, skip_embedding_retrieval,
  embedding_cache_storage, enable_on_demand_instruction_discovery, enable_file_hooks,
  enable_host_git_operations, enable_session_store, enable_skills, memory, custom_agents_local_only,
  skip_custom_instructions, coauthor_enabled, manage_schedule_enabled, SessionConfig, Entries,
  collect,
}
use copilot_cpp.Directory.Building.{
  own_members, empty_defaults, unset, members, append_session_config, available, excluded,
  check_available, check_excluded,
}

-- is the key one of the list?
unfoldable pub among : String → List String → Bool
among key [] = false
among key (k ∷ ks) = if str_eq k key then true else among key ks

-- is no key there twice?
unfoldable pub distinct : List String → Bool
unfolding among
distinct [] = true
distinct (k ∷ ks) = let rest = distinct ks in if among k ks then false else rest

if_not : (b x : Bool) → (if b then false else x) ≡ true → (b ≡ false) × (x ≡ true)
if_not true x h = absurd cc
if_not false x h = (refl, h)

if_false : (b x : Bool) → (if b then true else x) ≡ false → (b ≡ false) × (x ≡ false)
if_false true x h = absurd cc
if_false false x h = (refl, h)

if_other : {A : Type 0} (b : Bool) (x y z : A) → b ≡ false → (if b then x else y) ≡ z → y ≡ z
if_other true x y z q h = absurd cc
if_other false x y z q h = h

module _ {V : Type 0} where
  -- a table has no entry for the keys of the list
  among-disjoint :
      (key : String) (ks : List String) (table : List (String × V)) (d : V)
      → All (λ k. lookup k table ≡ none) ks
      → lookup key table ≡ some d
      → among key ks ≡ false
  unfolding among
  among-disjoint key [] table d a e = refl
  among-disjoint key (k ∷ ks) table d (n, a) e = elim (Bool-cases (str_eq k key)) [
    | inl q ↦
        let p : ◌≡◌ {A = Option V} none (some d) =
          sym n ∙ ap (λ x. lookup x table) ((eq_iff k key).0 q) ∙ e in
        absurd cc
    | inr q ↦ rw (q, among) (among-disjoint key ks table d a e)
  ]

  -- the value that a list of entries gives to a key
  unfoldable pub value_of : String → List (String × Option V) → Option V
  value_of key [] = none
  value_of key ((k, o) ∷ es) =
      let rest = value_of key es in if str_eq k key then first_some o rest else rest

  value_of-append :
      (key : String) (es xs : List (String × Option V))
      → among key (map (λ e. e.0) es) ≡ false
      → value_of key (es ++ xs) ≡ value_of key xs
  unfolding value_of among
  value_of-append key [] xs h = refl
  value_of-append key ((k, o) ∷ es) xs h =
      let (q, r) = if_false (str_eq k key) (among key (map (λ e. e.0) es)) h in
      rw (q, value_of) (value_of-append key es xs r)

  value_of_absent :
      {F : Type 0} (key : String) (f : F → Option V) (table : List (String × F))
      → among key (map (λ e. e.0) table) ≡ false
      → value_of key (map (λ e. (e.0, f e.1)) table) ≡ none
  unfolding value_of among
  value_of_absent key f [] h = refl
  value_of_absent key f ((k, x) ∷ table) h =
      let (q, r) = if_false (str_eq k key) (among key (map (λ e. e.0) table)) h in
      rw (q, value_of) (value_of_absent key f table r)

  first_some-none : (o : Option V) → first_some o none ≡ o
  first_some-none none = refl
  first_some-none (some v) = refl

  -- a key of a table whose keys are distinct has the value of its field
  value_of-map :
      {F : Type 0} (key : String) (f : F → Option V) (table : List (String × F)) (x : F)
      → distinct (map (λ e. e.0) table) ≡ true
      → lookup key table ≡ some x
      → value_of key (map (λ e. (e.0, f e.1)) table) ≡ f x
  unfolding value_of distinct
  value_of-map key f [] x d h = absurd cc
  value_of-map key f ((k, y) ∷ table) x d h =
      let (fresh, others) =
        if_not (among k (map (λ e. e.0) table)) (distinct (map (λ e. e.0) table)) d in
      elim (Bool-cases (str_eq k key)) [
        | inl q ↦
            let same : k ≡ key = (eq_iff k key).0 q in
            let found : y ≡ x = some-injective y x (rw q at h) in
            let gone : among key (map (λ e. e.0) table) ≡ false =
              ap (λ i. among i (map (λ e. e.0) table)) (sym same) ∙ fresh in
            rw (q, value_of, value_of_absent key f table gone) (first_some-none (f y) ∙ ap f found)
        | inr q ↦
            rw (q, value_of)
              (value_of-map key f table x others
                (if_other (str_eq k key) (some y) (lookup key table) (some x) q h))
      ]

module _ (J : Json) where
  open J use {Value, text, boolean, object}

  lookup-collect : (key : String) (es : Entries J) → lookup key (collect J es) ≡ value_of key es
  unfolding collect value_of
  lookup-collect key [] = refl
  lookup-collect key ((k, none) ∷ es) = elim (Bool-cases (str_eq k key)) [
    | inl q ↦ rw (q, value_of) (lookup-collect key es)
    | inr q ↦ rw (q, value_of) (lookup-collect key es)
  ]
  lookup-collect key ((k, some v) ∷ es) =
      ap (λ r. if str_eq k key then some v else r) (lookup-collect key es)

  -- what the defaults before the other members make of a key
  abbrev chosen : Option Value → Option Value → Option Value → Option Value
  chosen (some v) default rest = rest
  chosen none default rest = first_some default rest

  chosen-same : (o r : Option Value) → chosen o none r ≡ r
  chosen-same (some v) r = refl
  chosen-same none r = refl

  -- the default of an entry
  abbrev default_of : Option (ConfigField × Value) → Option Value
  default_of none = none
  default_of (some (field, d)) = some d

  -- each entry is about the field that is copied to its key
  abbrev Agree : List (String × (ConfigField × Value)) → Type 0
  Agree ds = All (λ e. lookup e.0 copied ≡ some e.1.0) ds

  lookup-unset :
      (key : String) (field : ConfigField) (settings : ConfigField → Option Value)
      (ds : List (String × (ConfigField × Value))) (rest : List (String × Value))
      → lookup key copied ≡ some field
      → Agree ds
      → lookup key (unset J settings ds ++ rest)
        ≡ chosen (settings field) (default_of (lookup key ds)) (lookup key rest)
  unfolding unset
  lookup-unset key field settings [] rest found agree =
      sym (chosen-same (settings field) (lookup key rest))
  lookup-unset key field settings ((k, (g, d)) ∷ ds) rest found (this, agree) =
      let again = lookup-unset key field settings ds rest found agree in
      elim (Bool-cases (str_eq k key)) [
        | inl q ↦
            let p : settings g ≡ settings field = ap settings (
              some-injective g field
                (sym this ∙ ap (λ i. lookup i copied) ((eq_iff k key).0 q) ∙ found)) in
            elim (Option-cases (settings g)) [
              | inl e ↦ rw (q, sym p ∙ e, e, unset) (rw q refl)
              | inr (v, e) ↦
                  rw (q, sym p ∙ e, e, unset)
                    (again
                      ∙ ap (λ o. chosen o (default_of (lookup key ds)) (lookup key rest))
                          (sym p ∙ e))
            ]
        | inr q ↦ elim (Option-cases (settings g)) [
          | inl e ↦ rw (q, e, unset) (rw q again)
          | inr (v, e) ↦ rw (q, e, unset) again
        ]
      ]

  field_at :
      (key : String) (ds : List (String × (ConfigField × Value))) (field : ConfigField) (d : Value)
      → Agree ds
      → lookup key ds ≡ some (field, d)
      → lookup key copied ≡ some field
  field_at key [] field d agree e = absurd cc
  field_at key ((k, (g, x)) ∷ ds) field d (this, agree) e = elim (Bool-cases (str_eq k key)) [
    | inl q ↦
        let same : ◌≡◌ {A = ConfigField × Value} (g, x) (field, d) =
          some-injective (g, x) (field, d) (rw q at e) in
        ap (λ i. lookup i copied) (sym ((eq_iff k key).0 q)) ∙ this ∙ ap (λ o. some o.0) same
    | inr q ↦
        field_at key ds field d agree
          (if_other (str_eq k key) (some (g, x)) (lookup key ds) (some (field, d)) q e)
  ]

  own_members-none :
      (c : SessionConfig J)
      → All (λ k. lookup k (empty_defaults J) ≡ none) (map (λ e. e.0) (own_members J c empty))
  own_members-none c = (
    refl,
    (
      refl,
      (
        refl,
        (
          refl,
          (
            refl,
            (
              refl,
              (
                refl,
                (
                  refl,
                  (
                    refl,
                    (refl, (refl, (refl, (refl, (refl, (refl, (refl, (refl, (refl, tt))))))))),
                  ),
                ),
              ),
            ),
          ),
        ),
      ),
    ),
  )

  defaults-copied : Agree (empty_defaults J)
  defaults-copied = (
    refl,
    (
      refl,
      (
        refl,
        (refl, (refl, (refl, (refl, (refl, (refl, (refl, (refl, (refl, (refl, (refl, tt))))))))))),
      ),
    ),
  )

  -- the configuration's value, or the default
  abbrev pub given : Option Value → Value → Value
  given (some v) d = v
  given none d = d

  chosen-given : (o : Option Value) (d : Value) → chosen o (some d) o ≡ some (given o d)
  chosen-given (some v) d = refl
  chosen-given none d = refl

  copied-distinct : distinct (map (λ e. e.0) copied) ≡ true
  unfolding distinct among
  copied-distinct = refl

  members-given :
      (c : SessionConfig J) (key : String) (field : ConfigField) (d : Value)
      → lookup key (empty_defaults J) ≡ some (field, d)
      → lookup key (members J c empty) ≡ some (given (c.settings field) d)
  unfolding members
  members-given c key field d e =
      let others = map (λ x. (x.0, c.settings x.1)) copied in
      let found = field_at key (empty_defaults J) field d defaults-copied e in
      let sent : lookup key (collect J (own_members J c empty ++ others)) ≡ c.settings field =
        lookup-collect key (own_members J c empty ++ others)
        ∙ value_of-append key (own_members J c empty) others (
            among-disjoint key (map (λ x. x.0) (own_members J c empty)) (empty_defaults J)
              (field, d) (own_members-none c) e)
        ∙ value_of-map key c.settings copied field copied-distinct found in
      lookup-unset key field c.settings (empty_defaults J)
        (collect J (own_members J c empty ++ others)) found defaults-copied
      ∙ ap
          (λ o.
            chosen (c.settings field) (default_of o)
              (lookup key (collect J (own_members J c empty ++ others))))
          e
      ∙ ap (λ o. chosen (c.settings field) (some d) o) sent
      ∙ chosen-given (c.settings field) d

  checked :
      (a b : Result String (Unit {0})) (m r : List (String × Value))
      → (a >> (b >> ok m)) ≡ ok r
      → m ≡ r
  checked (ok u) (ok v) m r h = ok-injective m r h
  checked (ok u) (err what) m r h = absurd cc
  checked (err what) b m r h = absurd cc

  -- What the empty mode promises: the key, the field and the restrictive value.
  abbrev pub restrictive : List (String × (ConfigField × Value))
  restrictive =
      ("enableSessionTelemetry", (enable_session_telemetry, boolean false))
      ∷ ("mcpOAuthTokenStorage", (mcp_oauth_token_storage, text "in-memory"))
      ∷ ("skipEmbeddingRetrieval", (skip_embedding_retrieval, boolean true))
      ∷ ("embeddingCacheStorage", (embedding_cache_storage, text "in-memory"))
      ∷ (
        "enableOnDemandInstructionDiscovery",
        (enable_on_demand_instruction_discovery, boolean false),
      )
      ∷ ("enableFileHooks", (enable_file_hooks, boolean false))
      ∷ ("enableHostGitOperations", (enable_host_git_operations, boolean false))
      ∷ ("enableSessionStore", (enable_session_store, boolean false))
      ∷ ("enableSkills", (enable_skills, boolean false))
      ∷ ("memory", (memory, object (("enabled", boolean false) ∷ [])))
      ∷ ("customAgentsLocalOnly", (custom_agents_local_only, boolean true))
      ∷ ("skipCustomInstructions", (skip_custom_instructions, boolean true))
      ∷ ("coauthorEnabled", (coauthor_enabled, boolean false))
      ∷ ("manageScheduleEnabled", (manage_schedule_enabled, boolean false))
      ∷ []

  -- When append_session_config ends well in the empty mode, the request has, for each key of the table
  -- `restrictive`, the value of its field if the configuration sets this, and otherwise the value of
  -- the table: the stores of tokens and embeddings are in memory, telemetry, instructions on demand,
  -- hooks of files, git operations, the session store, skills, memory, coauthors and schedules are
  -- off, and embeddings are not retrieved, agents are local only and custom instructions are skipped.
  pub empty_mode_defaults :
      (c : SessionConfig J) (request : List (String × Value)) (key : String) (field : ConfigField)
      (d : Value)
      → append_session_config J c empty ≡ ok request
      → lookup key restrictive ≡ some (field, d)
      → lookup key request ≡ some (given (c.settings field) d)
  unfolding append_session_config
  empty_mode_defaults c request key field d built e =
      ap (λ r. lookup key r)
        (sym (
          checked (check_available J empty (available J c)) (check_excluded J (excluded J c))
            (members J c empty) request built))
      ∙ members-given c key field d e
