-- ===== src/Parser/ProtocolParser/Safety.antt =====
-- Parsing returns for every packet, and what it returns.
use beatrice.Base.{
  ℕ, suc, ◌+◌, ◌≤◌, ◌<◌, ◌≡◌, refl, ◌∙◌, ◌⊎◌, inl, inr, Bool, true, false, ◌||◌, max, List, [], ◌∷◌,
  Text, codes, text_eq, length, All, ltb, ltb→lt, ltb→le, Bool-cases, Option-cases, if◌then◌else◌,
  ok, ◌>>=◌, Ensures, Ensures->>=, Ensures-mono, is_ok, Ensures-of_is_ok, arith,
}
use beatrice.Base.Words.{size_add, size_mod}
use beatrice.Base.Maps.{lookup, insert, has_key, lookup-insert}
use beatrice.Parser.Field.{FieldConstraint, FieldDefinition, ProtocolDefinition, get_total_length}
use beatrice.Parser.Field.Length.{Fits, farthest, get_total_length-farthest, All-farthest}
use beatrice.Parser.Value.{Runtime, FieldValueType, FieldValue}
use beatrice.Parser.Value.Extract.{extract_field}
use beatrice.Parser.Value.Print.{typed_text, to_text}
use beatrice.Parser.Value.Safe.{IsReadable, IsWritten, extract_field-IsTyped}
use beatrice.Parser.Value.Typed.{IsTyped, agrees}
use beatrice.Parser.ParseResult.{
  ParseResult, success, packet_too_short, new_result, set_protocol, set_packet_info, set_raw_data,
  set_error, add_field, add_validation_result, has_field,
}
use beatrice.Parser.ProtocolParser.{ParserConfig}
use beatrice.Parser.ProtocolParser.Parse.{
  matches_pattern, validate_field, validate_checksum, failed_validation, parse_field, parse_fields,
  started, finish, parse_packet_internal,
}

typed_text_ok :
    (rt : Runtime) (v : FieldValue) (t : FieldValueType)
    → agrees t v.value ≡ true
    → is_ok (typed_text rt v t) ≡ true
unfolding typed_text
typed_text_ok rt v t h = ground arith

matches_pattern_ok :
    (rt : Runtime) (c : FieldConstraint) (v : FieldValue)
    → IsTyped v
    → is_ok (matches_pattern rt c v) ≡ true
unfolding matches_pattern to_text
matches_pattern_ok rt c v (valid, typed) = ground (arith, typed_text_ok rt v v.type)

validate_field_ok :
    (rt : Runtime) (v : FieldValue) (f : FieldDefinition)
    → IsTyped v
    → is_ok (validate_field rt v f) ≡ true
unfolding validate_field
validate_field_ok rt v f typed = elim (Option-cases f.constraint) [
  | inl e ↦ rw e (ground arith)
  | inr (c, e) ↦ rw e (ground (arith, matches_pattern_ok rt c v typed))
]

All-Fits : (fs : List FieldDefinition) → All IsReadable fs → All Fits fs
All-Fits [] h = tt
All-Fits (f ∷ fs) ((wrap, readable), h) = (wrap, All-Fits fs h)

too_short :
    (packet : Text) (protocol : ProtocolDefinition)
    → let r =
        set_error
          (started packet protocol)
          packet_too_short
          (codes "Packet too short for protocol") in
      (r.status ≡ packet_too_short) × (r.fields ≡ [])
unfolding set_error started new_result set_protocol set_packet_info set_raw_data
too_short packet protocol = (refl, refl)

-- Some field of the list has the name.
abbrev pub declares : Text → List FieldDefinition → Bool
declares name [] = false
declares name (f ∷ fs) = text_eq f.name name || declares name fs

-- What reading the fields `fs` makes of a result r.
abbrev Extends : List FieldDefinition → ParseResult → ParseResult → Type 0
Extends fs r r' =
    (r'.status ≡ r.status)
    × ((name : Text) → has_key name r'.fields ≡ (declares name fs || has_key name r.fields))

has_key-insert :
    (k j : Text) (v : FieldValue) (r : ParseResult)
    → has_key j (insert k v r.fields) ≡ (text_eq k j || has_key j r.fields)
has_key-insert k j v r = ground (arith, lookup-insert k j v r.fields)

module _ (rt : Runtime) (config : ParserConfig) (packet : Text)
    (fits : length packet < size_mod) where
  stored :
      (t : ℕ) (f : FieldDefinition) (r : ParseResult) (v : FieldValue) (valid : Bool)
      → let r' = add_field r f.name v in
        Extends
          (f ∷ [])
          r
          (if valid then r' else add_validation_result r' (failed_validation f.name t))
  unfolding add_field add_validation_result
  stored t f r v true = (refl, λ name. ground (arith, has_key-insert f.name name v r))
  stored t f r v false = (refl, λ name. ground (arith, has_key-insert f.name name v r))

  parse_field_ok :
      (t : ℕ) (f : FieldDefinition) (r : ParseResult)
      → IsReadable f
      → IsWritten rt packet f f.type
      → f.offset + f.length ≤ length packet
      → Ensures (Extends (f ∷ []) r) (parse_field rt config packet t f r)
  unfolding parse_field
  parse_field_ok t f r readable written inside =
      Ensures->>= IsTyped (Extends (f ∷ []) r) (extract_field rt packet f) _
        (extract_field-IsTyped rt packet f fits readable written inside)
        λ v typed.
          let v' : FieldValue = record v { parse_time = t } in
          Ensures->>= (λ b. Unit) (Extends (f ∷ []) r)
            (if config.enable_validation then validate_field rt v' f else ok true) _
            (Ensures-of_is_ok _ (ground (arith, validate_field_ok rt v' f typed)))
            λ b _. stored t f r v' b

  -- A field within the packet is read.
  parse_fields-cons :
      (time : ℕ → ℕ) (f : FieldDefinition) (fs : List FieldDefinition) (i parsed : ℕ)
      (r : ParseResult)
      → size_add f.offset f.length ≤ length packet
      → parse_fields rt config packet time (f ∷ fs) i parsed r ≡ (
          parse_field rt config packet (time i) f r >>= λ r'.
          parse_fields rt config packet time fs
            (suc i)
            (max parsed (size_add f.offset f.length))
            r')
  unfolding parse_fields
  parse_fields-cons time f fs i parsed r h = ground arith

  parse_fields_ok :
      (time : ℕ → ℕ) (fs : List FieldDefinition) (i parsed : ℕ) (r : ParseResult)
      → All IsReadable fs
      → All (λ f. IsWritten rt packet f f.type) fs
      → All (λ f. f.offset + f.length ≤ length packet) fs
      → Ensures
          (λ out. Extends fs r out.0 × (out.1 ≡ max parsed (farthest fs)))
          (parse_fields rt config packet time fs i parsed r)
  unfolding parse_fields
  parse_fields_ok time [] i parsed r _ _ _ = ((refl, λ name. refl), omega arith)
  parse_fields_ok time (f ∷ fs) i parsed r (readable, rs) (written, ws) (inside, ins) =
      let Goal : ParseResult × ℕ → Type 0 =
        λ out. Extends (f ∷ fs) r out.0 × (out.1 ≡ max parsed (farthest (f ∷ fs))) in
      rw (parse_fields-cons time f fs i parsed r (omega arith)) (
        Ensures->>= (Extends (f ∷ []) r) Goal (parse_field rt config packet (time i) f r) _
          (parse_field_ok (time i) f r readable written inside)
          λ r' one.
            Ensures-mono _ Goal
              (parse_fields rt config packet time fs (suc i)
                (max parsed (size_add f.offset f.length)) r')
              (parse_fields_ok time fs (suc i) (max parsed (size_add f.offset f.length)) r' rs ws
                ins)
              λ out more. (
                (more.0.0 ∙ one.0, λ name. ground (arith, one.1 name, more.0.1 name)),
                omega (arith, more.1, readable.0),
              ))

  finished :
      (protocol : ProtocolDefinition) (out : ParseResult × ℕ)
      → Extends protocol.fields (started packet protocol) out.0
      → out.1 ≡ max 0 (farthest protocol.fields)
      → let r = finish config packet protocol out in
        (r.status ≡ success)
        × (r.packet_length ≡ length packet)
        × (r.parsed_bytes ≡ farthest protocol.fields)
        × ((name : Text) → has_field r name ≡ declares name protocol.fields)
  unfolding finish started new_result set_protocol set_packet_info set_raw_data validate_checksum
      has_field lookup
  finished protocol out (kept, found) parsed =
      (ground arith, ground arith, ground arith, λ name. ground (arith, found name))

-- What parsePacketInternal promises of its result.
abbrev pub Parsed : Text → ProtocolDefinition → ParseResult → Type 0
Parsed packet protocol r =
    ((length packet < farthest protocol.fields) × (r.status ≡ packet_too_short) × (r.fields ≡ []))
    ⊎ ((farthest protocol.fields ≤ length packet)
        × (r.status ≡ success)
        × (r.packet_length ≡ length packet)
        × (r.parsed_bytes ≡ farthest protocol.fields)
        × ((name : Text) → has_field r name ≡ declares name protocol.fields))

pub parse_packet_internal_total :
    (rt : Runtime) (config : ParserConfig) (time : ℕ → ℕ) (packet : Text)
    (protocol : ProtocolDefinition)
    → length packet < size_mod
    → All IsReadable protocol.fields
    → All (λ f. IsWritten rt packet f f.type) protocol.fields
    → Ensures (Parsed packet protocol) (parse_packet_internal rt config time packet protocol)
unfolding parse_packet_internal
parse_packet_internal_total rt config time packet protocol fits readable written =
    let total = get_total_length-farthest protocol (All-Fits protocol.fields readable) in
    elim (Bool-cases (ltb (length packet) (get_total_length protocol))) [
      | inl short ↦ rw short (
          inl (
            omega (arith, total, ltb→lt (length packet) (get_total_length protocol) short),
            (too_short packet protocol).0,
            (too_short packet protocol).1,
          ))
      | inr long ↦
          let enough : farthest protocol.fields ≤ length packet =
            omega (arith, total, ltb→le (length packet) (get_total_length protocol) long) in
          rw long (
            Ensures->>= _ _
              (parse_fields rt config packet time protocol.fields 0 0 (started packet protocol)) _
              (parse_fields_ok rt config packet fits time protocol.fields 0 0
                (started packet protocol) readable written
                (All-farthest protocol.fields (length packet) enough))
              λ out done.
                let (st, len, bytes, names) =
                  finished rt config packet fits protocol out done.0 done.1 in
                inr (enough, st, len, bytes, names))
    ]
