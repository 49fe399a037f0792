-- ===== src/Events/Fallback.antt =====
-- events.hpp: events of an unknown type, and data that does not fit its type.
use copilot_cpp.Prelude.{
  ◌≡◌, refl, Bool, ◌⊎◌, inl, inr, Option, none, some, String, List, Option-cases,
}
use copilot_cpp.Prelude.Text.{lookup}
use copilot_cpp.Prelude.Exec.{ok}
use copilot_cpp.Json.{Json, IsLawful}
use copilot_cpp.Events.Types.{SessionEventType, unknown, Payload}
use copilot_cpp.Events.Names.{type_map}
use copilot_cpp.Events.Payloads.{payload_of}
use copilot_cpp.Events.{
  Structs, SessionEventData, typed, raw, SessionEvent, text_at, optional_of, flag_of, data_for,
  data_of, type_or_unknown, parse_session_event,
}

module _ {J : Json} (S : Structs J) (L : IsLawful J) (m : List (String × Json.Value J)) where
  open J use {Value, text, null, boolean}
  open S use {Data, get, get_bool}

  abbrev pub IsText : String → String → Type 0
  IsText key s = lookup key m ≡ some (text s)

  -- a member that is absent, null or a text
  abbrev pub IsOptionalText : String → Type 0
  IsOptionalText key =
      (lookup key m ≡ none) ⊎ ((lookup key m ≡ some null) ⊎ ((s : String) × IsText key s))

  abbrev pub IsOptionalFlag : String → Type 0
  IsOptionalFlag key = (lookup key m ≡ none) ⊎ ((b : Bool) × (lookup key m ≡ some (boolean b)))

  -- The common members of an event, of type `t` with the data `v`.
  pub record IsEnvelope (t : String) (v : Value) : Type 0 where
    pub id : (s : String) × IsText "id" s
    pub timestamp : (s : String) × IsText "timestamp" s
    pub parent_id : IsOptionalText "parentId"
    pub ephemeral : IsOptionalFlag "ephemeral"
    pub agent_id : IsOptionalText "agentId"
    pub type : IsText "type" t
    pub content : lookup "data" m ≡ some v

  -- the data of an event of a type: the struct of the type, where it fits, else the raw JSON
  abbrev pub IsContent : SessionEventType → Value → SessionEventData S → Type 0
  IsContent ty v content =
      ((payload_of ty ≡ none) × (content ≡ raw v))
      ⊎ ((p : Payload) × (payload_of ty ≡ some p)
          × (((get p v ≡ none) × (content ≡ raw v))
              ⊎ ((x : Data p) × (get p v ≡ some x) × (content ≡ typed p x))))

  abbrev pub Reads : String → Value → SessionEvent S → Type 0
  Reads t v e =
      (e.type_string ≡ t)
      × (((lookup t type_map ≡ none) × (e.type ≡ unknown) × (e.content ≡ raw v))
          ⊎ ((lookup t type_map ≡ some e.type) × IsContent e.type v e.content))

  text_at-text : (key s : String) → IsText key s → text_at S (Json.object J m) key ≡ ok s
  text_at-text key s e = rw (IsLawful.at-object L m key, e, IsLawful.get_string-text L s) refl

  optional_of-text :
      (key : String)
      → IsOptionalText key
      → (o : Option String) × (optional_of S (Json.at J (Json.object J m) key) ≡ ok o)
  optional_of-text key (inl e) = (none, rw (IsLawful.at-object L m key, e) refl)
  optional_of-text key (inr (inl e)) =
      (none, rw (IsLawful.at-object L m key, e, IsLawful.is_null-null L) refl)
  optional_of-text key (inr (inr (s, e))) = (
    some s,
    rw (IsLawful.at-object L m key, e, IsLawful.is_null-text L s, IsLawful.get_string-text L s)
        refl,
  )

  flag_of-boolean :
      (key : String)
      → ((b : Bool) → get_bool (boolean b) ≡ some b)
      → IsOptionalFlag key
      → (o : Option Bool) × (flag_of S (Json.at J (Json.object J m) key) ≡ ok o)
  flag_of-boolean key law (inl e) = (none, rw (IsLawful.at-object L m key, e) refl)
  flag_of-boolean key law (inr (b, e)) = (some b, rw (IsLawful.at-object L m key, e, law b) refl)

  data_for-IsContent :
      (ty : SessionEventType) (v : Value) → IsContent ty v (data_for S (payload_of ty) v)
  data_for-IsContent ty v = elim (Option-cases (payload_of ty)) [
    | inl e ↦ inl (e, rw e refl)
    | inr (p, e) ↦ elim (Option-cases (get p v)) [
      | inl q ↦ inr (p, e, inl (q, rw (e, q) refl))
      | inr (x, q) ↦ inr (p, e, inr (x, q, rw (e, q) refl))
    ]
  ]

  is_read :
      (t : String) (v : Value)
      → let ty = type_or_unknown (lookup t type_map) in
        let content = data_of S (lookup t type_map) v in
        ((lookup t type_map ≡ none) × (ty ≡ unknown) × (content ≡ raw v))
        ⊎ ((lookup t type_map ≡ some ty) × IsContent ty v content)
  is_read t v = elim (Option-cases (lookup t type_map)) [
    | inl e ↦ inl (e, rw e refl, rw e refl)
    | inr (ty, e) ↦ inr (rw e refl, rw e (data_for-IsContent ty v))
  ]

  -- An event whose common members can be read is parsed, whatever its type and its data are: its data
  -- is the struct of its type, where the data can be read as that, and else the raw JSON, as for a type
  -- that is not known; the text of the type is kept.
  pub parse_session_event-Reads :
      (t : String) (v : Value)
      → ((b : Bool) → get_bool (boolean b) ≡ some b)
      → IsEnvelope t v
      → (e : SessionEvent S) × (parse_session_event S (Json.object J m) ≡ ok e) × Reads t v e
  unfolding parse_session_event
  parse_session_event-Reads t v law env =
      let (id, is_id) = env.id in
      let (timestamp, is_timestamp) = env.timestamp in
      let (parent, is_parent) = optional_of-text "parentId" env.parent_id in
      let (flag, is_flag) = flag_of-boolean "ephemeral" law env.ephemeral in
      let (agent, is_agent) = optional_of-text "agentId" env.agent_id in
      (
        record {
          id = id;
          timestamp = timestamp;
          parent_id = parent;
          ephemeral = flag;
          agent_id = agent;
          type = type_or_unknown (lookup t type_map);
          type_string = t;
          content = data_of S (lookup t type_map) v;
        },
        rw
            (
              text_at-text "id" id is_id,
              text_at-text "timestamp" timestamp is_timestamp,
              is_parent,
              is_flag,
              is_agent,
              text_at-text "type" t env.type,
              IsLawful.at-object L m "data",
              env.content,
            )
            refl,
        (refl, is_read t v),
      )
