-- ===== src/Parser/Registry/Builtin.antt =====
-- BuiltinProtocols of src/parser/ProtocolRegistry.cpp.
pub mod Layout
use beatrice.Base.{ℕ, true, List, [], ◌∷◌, Text, codes}
use beatrice.Parser.Field.{network, FieldDefinition, ProtocolDefinition, new_protocol, add_field}
use beatrice.Parser.Field.Factory.{
  create_uint8_field, create_uint16_field, create_uint32_field, create_bytes_field,
  create_string_field, create_ipv4_address_field, create_ipv6_address_field,
}

-- A protocol with a description and no field yet.
unfoldable pub described : Text → Text → Text → ProtocolDefinition
unfolding new_protocol
described name version description = record (new_protocol name version) {
  description = description;
}

-- A list of addField calls.
unfoldable pub with_fields : ProtocolDefinition → List FieldDefinition → ProtocolDefinition
unfolding add_field
with_fields p [] = p
with_fields p (f ∷ fs) = with_fields (add_field p f) fs

unfoldable pub create_ethernet_protocol : ProtocolDefinition
unfolding described with_fields create_uint8_field create_uint16_field create_uint32_field
    create_bytes_field create_string_field create_ipv4_address_field create_ipv6_address_field
create_ethernet_protocol =
    with_fields (described (codes "ethernet") (codes "2.0") (codes "Ethernet II Frame")) (
      create_bytes_field (codes "destination_mac") 0 6 true (codes "Destination MAC Address")
      ∷ create_bytes_field (codes "source_mac") 6 6 true (codes "Source MAC Address")
      ∷ create_uint16_field (codes "ethertype") 12 network true (codes "EtherType")
      ∷ [])

unfoldable pub create_ipv4_protocol : ProtocolDefinition
unfolding described with_fields create_uint8_field create_uint16_field create_uint32_field
    create_bytes_field create_string_field create_ipv4_address_field create_ipv6_address_field
create_ipv4_protocol =
    with_fields (described (codes "ipv4") (codes "4.0") (codes "Internet Protocol Version 4")) (
      create_uint8_field (codes "version") 0 true (codes "IP Version")
      ∷ create_uint8_field (codes "ihl") 0 true (codes "Header Length")
      ∷ create_uint8_field (codes "tos") 1 true (codes "Type of Service")
      ∷ create_uint16_field (codes "total_length") 2 network true (codes "Total Length")
      ∷ create_uint16_field (codes "identification") 4 network true (codes "Identification")
      ∷ create_uint16_field (codes "flags") 6 network true (codes "Flags")
      ∷ create_uint8_field (codes "ttl") 8 true (codes "Time to Live")
      ∷ create_uint8_field (codes "protocol") 9 true (codes "Protocol")
      ∷ create_uint16_field (codes "checksum") 10 network true (codes "Header Checksum")
      ∷ create_ipv4_address_field (codes "source_ip") 12 true (codes "Source IP Address")
      ∷ create_ipv4_address_field (codes "destination_ip") 16 true (codes "Destination IP Address")
      ∷ [])

unfoldable pub create_ipv6_protocol : ProtocolDefinition
unfolding described with_fields create_uint8_field create_uint16_field create_uint32_field
    create_bytes_field create_string_field create_ipv4_address_field create_ipv6_address_field
create_ipv6_protocol =
    with_fields (described (codes "ipv6") (codes "6.0") (codes "Internet Protocol Version 6")) (
      create_uint32_field (codes "version_traffic_class_flow_label") 0 network true
        (codes "Version, Traffic Class, Flow Label")
      ∷ create_uint16_field (codes "payload_length") 4 network true (codes "Payload Length")
      ∷ create_uint8_field (codes "next_header") 6 true (codes "Next Header")
      ∷ create_uint8_field (codes "hop_limit") 7 true (codes "Hop Limit")
      ∷ create_ipv6_address_field (codes "source_ip") 8 true (codes "Source IP Address")
      ∷ create_ipv6_address_field (codes "destination_ip") 24 true (codes "Destination IP Address")
      ∷ [])

unfoldable pub create_tcp_protocol : ProtocolDefinition
unfolding described with_fields create_uint8_field create_uint16_field create_uint32_field
    create_bytes_field create_string_field create_ipv4_address_field create_ipv6_address_field
create_tcp_protocol =
    with_fields (described (codes "tcp") (codes "1.0") (codes "Transmission Control Protocol")) (
      create_uint16_field (codes "source_port") 0 network true (codes "Source Port")
      ∷ create_uint16_field (codes "destination_port") 2 network true (codes "Destination Port")
      ∷ create_uint32_field (codes "sequence_number") 4 network true (codes "Sequence Number")
      ∷ create_uint32_field (codes "acknowledgment_number") 8 network true
          (codes "Acknowledgment Number")
      ∷ create_uint8_field (codes "data_offset") 12 true (codes "Data Offset")
      ∷ create_uint8_field (codes "flags") 13 true (codes "Flags")
      ∷ create_uint16_field (codes "window_size") 14 network true (codes "Window Size")
      ∷ create_uint16_field (codes "checksum") 16 network true (codes "Checksum")
      ∷ create_uint16_field (codes "urgent_pointer") 18 network true (codes "Urgent Pointer")
      ∷ [])

unfoldable pub create_udp_protocol : ProtocolDefinition
unfolding described with_fields create_uint8_field create_uint16_field create_uint32_field
    create_bytes_field create_string_field create_ipv4_address_field create_ipv6_address_field
create_udp_protocol =
    with_fields (described (codes "udp") (codes "1.0") (codes "User Datagram Protocol")) (
      create_uint16_field (codes "source_port") 0 network true (codes "Source Port")
      ∷ create_uint16_field (codes "destination_port") 2 network true (codes "Destination Port")
      ∷ create_uint16_field (codes "length") 4 network true (codes "Length")
      ∷ create_uint16_field (codes "checksum") 6 network true (codes "Checksum")
      ∷ [])

unfoldable pub create_icmp_protocol : ProtocolDefinition
unfolding described with_fields create_uint8_field create_uint16_field create_uint32_field
    create_bytes_field create_string_field create_ipv4_address_field create_ipv6_address_field
create_icmp_protocol =
    with_fields (described (codes "icmp") (codes "1.0") (codes "Internet Control Message Protocol"))
      (create_uint8_field (codes "type") 0 true (codes "Type")
        ∷ create_uint8_field (codes "code") 1 true (codes "Code")
        ∷ create_uint16_field (codes "checksum") 2 network true (codes "Checksum")
        ∷ create_uint16_field (codes "identifier") 4 network true (codes "Identifier")
        ∷ create_uint16_field (codes "sequence_number") 6 network true (codes "Sequence Number")
        ∷ [])

unfoldable pub create_http_request_protocol : ProtocolDefinition
unfolding described with_fields create_uint8_field create_uint16_field create_uint32_field
    create_bytes_field create_string_field create_ipv4_address_field create_ipv6_address_field
create_http_request_protocol =
    with_fields (described (codes "http_request") (codes "1.1") (codes "HTTP Request")) (
      create_string_field (codes "method") 0 10 true (codes "HTTP Method")
      ∷ create_string_field (codes "uri") 10 100 true (codes "Request URI")
      ∷ create_string_field (codes "version") 110 10 true (codes "HTTP Version")
      ∷ [])

unfoldable pub create_http_response_protocol : ProtocolDefinition
unfolding described with_fields create_uint8_field create_uint16_field create_uint32_field
    create_bytes_field create_string_field create_ipv4_address_field create_ipv6_address_field
create_http_response_protocol =
    with_fields (described (codes "http_response") (codes "1.1") (codes "HTTP Response")) (
      create_string_field (codes "version") 0 10 true (codes "HTTP Version")
      ∷ create_uint16_field (codes "status_code") 10 network true (codes "Status Code")
      ∷ create_string_field (codes "reason_phrase") 12 50 true (codes "Reason Phrase")
      ∷ [])

unfoldable pub create_dns_protocol : ProtocolDefinition
unfolding described with_fields create_uint8_field create_uint16_field create_uint32_field
    create_bytes_field create_string_field create_ipv4_address_field create_ipv6_address_field
create_dns_protocol =
    with_fields (described (codes "dns") (codes "1.0") (codes "Domain Name System")) (
      create_uint16_field (codes "transaction_id") 0 network true (codes "Transaction ID")
      ∷ create_uint16_field (codes "flags") 2 network true (codes "Flags")
      ∷ create_uint16_field (codes "questions") 4 network true (codes "Questions")
      ∷ create_uint16_field (codes "answers") 6 network true (codes "Answers")
      ∷ create_uint16_field (codes "authority") 8 network true (codes "Authority")
      ∷ create_uint16_field (codes "additional") 10 network true (codes "Additional")
      ∷ [])

unfoldable pub create_arp_protocol : ProtocolDefinition
unfolding described with_fields create_uint8_field create_uint16_field create_uint32_field
    create_bytes_field create_string_field create_ipv4_address_field create_ipv6_address_field
create_arp_protocol =
    with_fields (described (codes "arp") (codes "1.0") (codes "Address Resolution Protocol")) (
      create_uint16_field (codes "hardware_type") 0 network true (codes "Hardware Type")
      ∷ create_uint16_field (codes "protocol_type") 2 network true (codes "Protocol Type")
      ∷ create_uint8_field (codes "hardware_size") 4 true (codes "Hardware Size")
      ∷ create_uint8_field (codes "protocol_size") 5 true (codes "Protocol Size")
      ∷ create_uint16_field (codes "opcode") 6 network true (codes "Opcode")
      ∷ create_bytes_field (codes "sender_mac") 8 6 true (codes "Sender MAC Address")
      ∷ create_ipv4_address_field (codes "sender_ip") 14 true (codes "Sender IP Address")
      ∷ create_bytes_field (codes "target_mac") 18 6 true (codes "Target MAC Address")
      ∷ create_ipv4_address_field (codes "target_ip") 24 true (codes "Target IP Address")
      ∷ [])

unfoldable pub create_vlan_protocol : ProtocolDefinition
unfolding described with_fields create_uint8_field create_uint16_field create_uint32_field
    create_bytes_field create_string_field create_ipv4_address_field create_ipv6_address_field
create_vlan_protocol =
    with_fields (described (codes "vlan") (codes "1.0") (codes "IEEE 802.1Q VLAN Tagging")) (
      create_uint16_field (codes "tpid") 0 network true (codes "Tag Protocol Identifier")
      ∷ create_uint16_field (codes "tci") 2 network true (codes "Tag Control Information")
      ∷ [])

unfoldable pub create_mpls_protocol : ProtocolDefinition
unfolding described with_fields create_uint8_field create_uint16_field create_uint32_field
    create_bytes_field create_string_field create_ipv4_address_field create_ipv6_address_field
create_mpls_protocol =
    with_fields (described (codes "mpls") (codes "1.0") (codes "Multiprotocol Label Switching"))
      (create_uint32_field (codes "label") 0 network true (codes "MPLS Label") ∷ [])

unfoldable pub get_all_protocols : List ProtocolDefinition
unfolding create_ethernet_protocol create_ipv4_protocol create_ipv6_protocol create_tcp_protocol
    create_udp_protocol create_icmp_protocol create_http_request_protocol
    create_http_response_protocol create_dns_protocol create_arp_protocol create_vlan_protocol
    create_mpls_protocol
get_all_protocols =
    create_ethernet_protocol ∷ create_ipv4_protocol ∷ create_ipv6_protocol ∷ create_tcp_protocol
    ∷ create_udp_protocol ∷ create_icmp_protocol ∷ create_http_request_protocol
    ∷ create_http_response_protocol ∷ create_dns_protocol ∷ create_arp_protocol
    ∷ create_vlan_protocol ∷ create_mpls_protocol ∷ []
