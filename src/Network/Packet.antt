-- ===== src/Network/Packet.antt =====
-- packages/linux-guest/src/network.ts: the headers, and the packets that the gateway parses and
-- writes. The header classes are the offsets of their fields, added up in the order of the classes.
pub mod Parsing
use distro.Common.{
  ℕ, zero, suc, ◌+◌, ◌-◌, ◌*◌, ◌/◌, ◌%◌, ◌^◌, ◌≤◌, ◌<◌, ◌≡◌, refl, ap, sym, ◌∙◌, Bool, true, false,
  not, ◌&&◌, ◌||◌, List, [], ◌∷◌, ◌++◌, Option, none, some, ltb, ◌==◌, if◌then◌else◌, arith, length,
  get_or, take, drop, length-append, take_all, le→ltb, drop-drop, drop-append_exact, append_assoc,
}
use distro.Network.Checksum.{checksum}

abbrev pub u8_at : List ℕ → ℕ → ℕ
u8_at bytes i = get_or bytes i 0

abbrev pub u16_at : List ℕ → ℕ → ℕ
u16_at bytes i = get_or bytes i 0 * 256 + get_or bytes (suc i) 0

abbrev pub u32_at : List ℕ → ℕ → ℕ
u32_at bytes i = u16_at bytes i * 2 ^ 16 + u16_at bytes (suc (suc i))

-- Fields in front of the rest of a packet; a write keeps the low bits.
abbrev pub u8_then : ℕ → List ℕ → List ℕ
u8_then v rest = v % 256 ∷ rest

abbrev pub u16_then : ℕ → List ℕ → List ℕ
u16_then v rest = v / 256 % 256 ∷ v % 256 ∷ rest

abbrev pub u32_then : ℕ → List ℕ → List ℕ
u32_then v rest = u16_then (v / 2 ^ 16) (u16_then v rest)

abbrev pub ipv4_type : ℕ
ipv4_type = 0x0800

-- `EthernetHeader.size`, `Ipv4Header.size`, `TcpHeader.size` and `UdpHeader.size`.
abbrev pub ethernet_size : ℕ
ethernet_size = 14

abbrev pub ipv4_size : ℕ
ipv4_size = 20

abbrev pub tcp_size : ℕ
tcp_size = 20

abbrev pub udp_size : ℕ
udp_size = 8

abbrev pub max_ip_payload : ℕ
max_ip_payload = 0xffff - ipv4_size

abbrev pub ip_fragment_payload : ℕ
ip_fragment_payload = (1500 - ipv4_size) / 8 * 8

pub record ParsedIpPacket : Type 0 where
  pub source : ℕ
  pub destination : ℕ
  pub protocol : ℕ
  pub payload : List ℕ

pub record ParsedIpFragment : Type 0 where
  pub packet : ParsedIpPacket
  pub identification : ℕ
  pub header_length : ℕ
  pub offset : ℕ
  pub more_fragments : Bool

pub record ParsedTcpSegment : Type 0 where
  pub source_port : ℕ
  pub destination_port : ℕ
  pub sequence : ℕ
  pub acknowledgement : ℕ
  pub flags : ℕ
  pub window : ℕ
  pub payload : List ℕ

pub record ParsedUdpDatagram : Type 0 where
  pub source_port : ℕ
  pub destination_port : ℕ
  pub payload : List ℕ

-- A fragment from the IPv4 packet's bytes, once the header's lengths have been checked.
unfoldable pub parse_fragment : List ℕ → ℕ → ℕ → Option ParsedIpFragment
parse_fragment bytes header_length total_length =
    let payload = drop header_length (take total_length bytes) in
    let offset = u16_at bytes 6 % 2 ^ 13 * 8 in
    let more_fragments = u16_at bytes 6 / 2 ^ 13 % 2 == 1 in
    if (not (offset == 0) || more_fragments) && (length payload == 0)
    then none
    else if more_fragments && not (length payload % 8 == 0)
    then none
    else if ltb max_ip_payload (offset + length payload)
    then none
    else some (record {
      packet = record {
        source = u32_at bytes 12;
        destination = u32_at bytes 16;
        protocol = u8_at bytes 9;
        payload = payload;
      };
      identification = u16_at bytes 4;
      header_length = header_length;
      offset = offset;
      more_fragments = more_fragments;
    })

unfoldable pub parse_ip : List ℕ → Option ParsedIpFragment
parse_ip frame =
    let bytes = drop ethernet_size frame in
    let header_length = u8_at bytes 0 % 16 * 4 in
    let total_length = u16_at bytes 2 in
    if ltb (length frame) (ethernet_size + ipv4_size)
    then none
    else if not (u16_at frame 12 == ipv4_type)
    then none
    else if not (u8_at bytes 0 / 16 == 4)
        || ltb header_length ipv4_size
        || ltb (length bytes) header_length
    then none
    else if ltb total_length header_length || ltb (length bytes) total_length
    then none
    else parse_fragment bytes header_length total_length

unfoldable pub parse_tcp : List ℕ → Option ParsedTcpSegment
parse_tcp payload =
    let header_length = u8_at payload 12 / 16 * 4 in
    if ltb (length payload) tcp_size
    then none
    else if ltb header_length tcp_size || ltb (length payload) header_length
    then none
    else some (record {
      source_port = u16_at payload 0;
      destination_port = u16_at payload 2;
      sequence = u32_at payload 4;
      acknowledgement = u32_at payload 8;
      flags = u8_at payload 13;
      window = u16_at payload 14;
      payload = drop header_length payload;
    })

unfoldable pub parse_udp : List ℕ → Option ParsedUdpDatagram
parse_udp payload =
    let total = u16_at payload 4 in
    if ltb (length payload) udp_size
    then none
    else if ltb total udp_size || ltb (length payload) total
    then none
    else some (record {
      source_port = u16_at payload 0;
      destination_port = u16_at payload 2;
      payload = drop udp_size (take total payload);
    })

-- The header twice: with no checksum, and with the checksum of those bytes.
unfoldable pub ip_header : ℕ → ℕ → ℕ → ℕ → ℕ → ℕ → ℕ → List ℕ
ip_header source_ip destination_ip protocol total identification fragment header_checksum =
    u8_then 0x45 (
      u8_then 0 (
        u16_then total (
          u16_then identification (
            u16_then fragment (
              u8_then 64 (
                u8_then protocol
                  (u16_then header_checksum (u32_then source_ip (u32_then destination_ip [])))))))))

-- `destination_mac` and the gateway's address are six bytes each.
unfoldable pub ip_packet : List ℕ → List ℕ → ℕ → ℕ → ℕ → List ℕ → ℕ → ℕ → List ℕ
ip_packet destination_mac gateway_mac source_ip destination_ip protocol payload identification
      fragment =
    let header =
      ip_header source_ip destination_ip protocol (ipv4_size + length payload) identification
        fragment in
    destination_mac
    ++ (gateway_mac ++ u16_then ipv4_type (header (checksum (header 0 ∷ [])) ++ payload))

unfoldable pub tcp_header : ℕ → ℕ → ℕ → ℕ → ℕ → ℕ → ℕ → List ℕ → List ℕ
tcp_header source_port destination_port sequence acknowledgement flags window header_checksum rest =
    u16_then source_port (
      u16_then destination_port (
        u32_then sequence (
          u32_then acknowledgement (
            u8_then (5 * 16)
              (u8_then flags (u16_then window (u16_then header_checksum (u16_then 0 rest))))))))

unfoldable pub tcp_segment : ℕ → ℕ → ℕ → ℕ → ℕ → ℕ → ℕ → List ℕ → ℕ → List ℕ
tcp_segment source_ip destination_ip source_port destination_port sequence acknowledgement flags
      payload window =
    let pseudo =
      u32_then source_ip (
        u32_then destination_ip
          (u8_then 0 (u8_then 6 (u16_then (tcp_size + length payload) [])))) in
    let segment = λ (header_checksum : ℕ).
      tcp_header source_port destination_port sequence acknowledgement flags window header_checksum
        payload in
    segment (checksum (pseudo ∷ segment 0 ∷ []))

unfoldable pub udp_datagram : ℕ → ℕ → List ℕ → List ℕ
udp_datagram source_port destination_port payload =
    u16_then source_port
      (u16_then destination_port (u16_then (udp_size + length payload) (u16_then 0 payload)))
