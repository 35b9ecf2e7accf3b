-- ===== src/Parser/ProtocolParser/Status.antt =====
-- What the status of a parse says.
use beatrice.Base.{
  ℕ, suc, ◌≤◌, ◌<◌, ◌≡◌, ◌∙◌, List, [], ◌∷◌, Text, length, ltb, ltb→le, Bool-cases, inl, inr, ◌⊎◌,
  ok, >>=-eq-ok, arith, max,
}
use beatrice.Base.Words.{size_add}
use beatrice.Parser.Field.{FieldDefinition, ProtocolDefinition, get_total_length}
use beatrice.Parser.Value.{Runtime}
use beatrice.Parser.ParseResult.{
  ParseResult, success, packet_too_short, new_result, set_protocol, set_packet_info, set_raw_data,
  set_error, add_field, add_validation_result,
}
use beatrice.Parser.ProtocolParser.{ParserConfig}
use beatrice.Parser.ProtocolParser.Parse.{
  parse_field, parse_fields, started, finish, parse_packet_internal, validate_checksum,
}

module _ (rt : Runtime) (config : ParserConfig) (packet : Text) (time : ℕ → ℕ) where
  parse_field-status :
      (t : ℕ) (f : FieldDefinition) (r r' : ParseResult)
      → parse_field rt config packet t f r ≡ ok r'
      → r'.status ≡ r.status
  unfolding parse_field add_field add_validation_result
  parse_field-status t f r r' h = ground arith

  parse_fields-status :
      (fs : List FieldDefinition) (i parsed : ℕ) (r : ParseResult) (out : ParseResult × ℕ)
      → parse_fields rt config packet time fs i parsed r ≡ ok out
      → out.0.status ≡ r.status
  unfolding parse_fields
  parse_fields-status [] i parsed r out h = ground arith
  parse_fields-status (f ∷ fs) i parsed r out h =
      elim (Bool-cases (ltb (length packet) (size_add f.offset f.length))) [
        | inl skip ↦ parse_fields-status fs (suc i) parsed r out (ground arith)
        | inr read ↦
            let (r', one, more) =
              >>=-eq-ok (parse_field rt config packet (time i) f r)
                (λ q.
                  parse_fields rt config packet time fs (suc i)
                    (max parsed (size_add f.offset f.length)) q)
                (ground arith) in
            parse_fields-status fs (suc i) _ r' out more ∙ parse_field-status (time i) f r r' one
      ]

  finished :
      (protocol : ProtocolDefinition) (r : ParseResult) (out : ParseResult × ℕ)
      → ok (finish config packet protocol out) ≡ ok r
      → out.0.status ≡ (started packet protocol).status
      → r.status ≡ success
  unfolding finish started new_result set_protocol set_packet_info set_raw_data validate_checksum
  finished protocol r out h e = ground arith

  -- If parsePacketInternal returns, the status is PACKET_TOO_SHORT with no field at all for a
  -- packet shorter than the protocol's total length, and SUCCESS for any other, whatever the
  -- constraints of its fields and the validations that fail.
  pub parse_packet_internal-status :
      (protocol : ProtocolDefinition) (r : ParseResult)
      → parse_packet_internal rt config time packet protocol ≡ ok r
      → ((length packet < get_total_length protocol)
          × (r.status ≡ packet_too_short)
          × (r.fields ≡ []))
        ⊎ ((get_total_length protocol ≤ length packet) × (r.status ≡ success))
  unfolding parse_packet_internal set_error started new_result set_protocol set_packet_info
      set_raw_data validate_checksum
  parse_packet_internal-status protocol r h =
      elim (Bool-cases (ltb (length packet) (get_total_length protocol))) [
        | inl short ↦ inl (ground arith)
        | inr long ↦
            let (out, loop, rest) =
              >>=-eq-ok
                (parse_fields rt config packet time protocol.fields 0 0 (started packet protocol))
                (λ o. ok (finish config packet protocol o)) (ground arith) in
            inr (
              ltb→le (length packet) (get_total_length protocol) long,
              finished protocol r out rest
                  (parse_fields-status protocol.fields 0 0 (started packet protocol) out loop),
            )
      ]
