-- ===== src/Network/Packet/Parsing.antt =====
-- packages/linux-guest/src/network.ts: the parsers on what the gateway writes.
use distro.Common.{
  ℕ, zero, suc, ◌+◌, ◌*◌, ◌/◌, ◌%◌, ◌^◌, ◌≤◌, ◌<◌, ◌≡◌, refl, ap, sym, ◌∙◌, Bool, true, false, not,
  ◌||◌, List, [], ◌∷◌, ◌++◌, Option, none, some, ltb, ◌==◌, if◌then◌else◌, arith, length, get_or,
  take, drop, length-append, take_all, le→ltb, drop-drop, drop-append_exact, append_assoc,
}
use distro.Network.Checksum.{checksum}
use distro.Network.Packet.{
  ParsedIpFragment, ip_header, ip_packet, ipv4_size, ipv4_type, max_ip_payload, parse_fragment,
  parse_ip, parse_tcp, parse_udp, tcp_header, tcp_segment, u16_at, u16_then, u8_at, udp_datagram,
  udp_size,
}

join16 : (v : ℕ) → v < 2 ^ 16 → v / 256 % 256 * 256 + v % 256 ≡ v
join16 v h = omega arith

join32 :
    (v : ℕ)
    → v < 2 ^ 32
    → (v / 2 ^ 16 / 256 % 256 * 256 + v / 2 ^ 16 % 256) * 2 ^ 16 + (v / 256 % 256 * 256 + v % 256)
      ≡ v
join32 v h = omega arith

mod_byte : (v : ℕ) → v < 2 ^ 8 → v % 256 ≡ v
mod_byte v h = omega arith

-- A datagram that fits its length field is parsed back.
pub parse_udp-udp_datagram :
    (source_port destination_port : ℕ) (payload : List ℕ)
    → source_port < 2 ^ 16
    → destination_port < 2 ^ 16
    → udp_size + length payload < 2 ^ 16
    → parse_udp (udp_datagram source_port destination_port payload)
      ≡ some (record {
        source_port = source_port;
        destination_port = destination_port;
        payload = payload;
      })
unfolding parse_udp udp_datagram
parse_udp-udp_datagram source_port destination_port payload s d l =
    let total = join16 (udp_size + length payload) l in
    let datagram = udp_datagram source_port destination_port payload in
    let whole : take (udp_size + length payload) datagram ≡ datagram =
      take_all _ datagram (omega arith) in
    rw
      (
        total,
        le→ltb (length datagram) udp_size (omega arith),
        le→ltb (udp_size + length payload) udp_size (omega arith),
        le→ltb (length datagram) (udp_size + length payload) (omega arith),
        whole,
        join16 source_port s,
        join16 destination_port d,
      )
      refl

-- A segment with a plain header is parsed back, whatever the checksum.
pub parse_tcp-tcp_segment :
    (source_ip destination_ip source_port destination_port sequence acknowledgement flags : ℕ)
    (payload : List ℕ) (window : ℕ)
    → source_port < 2 ^ 16
    → destination_port < 2 ^ 16
    → sequence < 2 ^ 32
    → acknowledgement < 2 ^ 32
    → flags < 2 ^ 8
    → window < 2 ^ 16
    → parse_tcp (
        tcp_segment source_ip destination_ip source_port destination_port sequence acknowledgement
          flags payload window)
      ≡ some (record {
        source_port = source_port;
        destination_port = destination_port;
        sequence = sequence;
        acknowledgement = acknowledgement;
        flags = flags;
        window = window;
        payload = payload;
      })
unfolding parse_tcp tcp_segment tcp_header
parse_tcp-tcp_segment source_ip destination_ip source_port destination_port sequence acknowledgement
      flags payload window s d q a f w =
    let large : ltb (length payload + 20) 20 ≡ false = ground arith in
    rw
      (
        join16 source_port s,
        join16 destination_port d,
        join32 sequence q,
        join32 acknowledgement a,
        join16 window w,
        mod_byte flags f,
      )
      (ground arith)

get_or-append_ge :
    (n i : ℕ) (xs ys : List ℕ) → length xs ≡ n → get_or (xs ++ ys) (n + i) 0 ≡ get_or ys i 0
get_or-append_ge zero i [] ys e = ap (λ k. get_or ys k 0) (omega arith)
get_or-append_ge zero i (x ∷ xs) ys e = absurd (omega arith)
get_or-append_ge (suc n) i [] ys e = absurd (omega arith)
get_or-append_ge (suc n) i (x ∷ xs) ys e =
    let k : suc n + i ≡ suc (n + i) = omega arith in rw k (get_or-append_ge n i xs ys (omega arith))

-- The checks that follow the Ethernet header, on the IPv4 bytes.
abbrev parse_ipv4 : List ℕ → Option ParsedIpFragment
parse_ipv4 bytes =
    let header_length = u8_at bytes 0 % 16 * 4 in
    let total_length = u16_at bytes 2 in
    if not (u8_at bytes 0 / 16 == 4)
      || ltb header_length ipv4_size
      || ltb (length bytes) header_length
    then none
    else if ltb total_length header_length || ltb (length bytes) total_length
    then none
    else parse_fragment bytes header_length total_length

parse_ip_link :
    (link bytes : List ℕ)
    → length link ≡ 12
    → ipv4_size ≤ length bytes
    → parse_ip (link ++ u16_then ipv4_type bytes) ≡ parse_ipv4 bytes
unfolding parse_ip
parse_ip_link link bytes e l =
    let frame = link ++ u16_then ipv4_type bytes in
    let rest : drop 14 frame ≡ bytes =
      sym (drop-drop 2 12 frame)
      ∙ rw (drop-append_exact 12 link (u16_then ipv4_type bytes) e) refl in
    rw
      (
        le→ltb (length frame) 34 (omega (arith, length-append link (u16_then ipv4_type bytes))),
        get_or-append_ge 12 0 link (u16_then ipv4_type bytes) e,
        get_or-append_ge 12 1 link (u16_then ipv4_type bytes) e,
        rest,
      )
      refl

-- The flags and the offset of a packet: "don't fragment", "more fragments", and units of 8 bytes.
abbrev pub flags_word : Bool → Bool → ℕ → ℕ
flags_word keep_whole more unit =
    (if keep_whole then 0x4000 else 0) + (if more then 0x2000 else 0) + unit

fragment_word :
    (whole more : Bool) (unit : ℕ)
    → unit < 2 ^ 13
    → let word = flags_word whole more unit in
      (word < 2 ^ 16) × (word % 2 ^ 13 ≡ unit) × ((word / 2 ^ 13 % 2 == 1) ≡ more)
fragment_word true more unit h = ground arith
fragment_word false more unit h = ground arith

parse_ipv4-header :
    (source_ip destination_ip protocol check : ℕ) (payload : List ℕ) (identification unit : ℕ)
    (keep_whole more : Bool)
    → source_ip < 2 ^ 32
    → destination_ip < 2 ^ 32
    → protocol < 2 ^ 8
    → identification < 2 ^ 16
    → 0 < length payload
    → unit * 8 + length payload ≤ max_ip_payload
    → (more ≡ true → length payload % 8 ≡ 0)
    → parse_ipv4 (
        ip_header source_ip destination_ip protocol
          (ipv4_size + length payload)
          identification
          (flags_word keep_whole more unit)
          check
        ++ payload)
      ≡ some (record {
        packet = record {
          source = source_ip;
          destination = destination_ip;
          protocol = protocol;
          payload = payload;
        };
        identification = identification;
        header_length = ipv4_size;
        offset = unit * 8;
        more_fragments = more;
      })
unfolding parse_fragment ip_header
parse_ipv4-header source_ip destination_ip protocol check payload identification unit keep_whole
      more s d p i n fits whole =
    let word = flags_word keep_whole more unit in
    let total = ipv4_size + length payload in
    let (narrow, position, flag) = fragment_word keep_whole more unit (omega arith) in
    let bytes =
      ip_header source_ip destination_ip protocol total identification word check ++ payload in
    let all_bytes : take total bytes ≡ bytes = take_all total bytes (omega arith) in
    rw
      (
        join16 total (omega arith),
        all_bytes,
        join16 word narrow,
        position,
        flag,
        join32 source_ip s,
        join32 destination_ip d,
        join16 identification i,
        mod_byte protocol p,
        le→ltb (length bytes) 20 (omega arith),
        le→ltb total 20 (omega arith),
        le→ltb (length bytes) total (omega arith),
        le→ltb max_ip_payload (unit * 8 + length payload) fits,
      )
      (ground arith)

-- A packet that `ip_packet` writes is parsed back, fragment fields included, with "don't fragment" or
-- without: with six-byte addresses, fields in range, and a payload that is not empty and that, with
-- its offset, an IPv4 packet may carry; it is a multiple of 8 bytes when more fragments follow.
pub parse_ip-ip_packet :
    (destination_mac gateway_mac : List ℕ) (source_ip destination_ip protocol : ℕ)
    (payload : List ℕ) (identification unit : ℕ) (keep_whole more : Bool)
    → length destination_mac ≡ 6
    → length gateway_mac ≡ 6
    → source_ip < 2 ^ 32
    → destination_ip < 2 ^ 32
    → protocol < 2 ^ 8
    → identification < 2 ^ 16
    → 0 < length payload
    → unit * 8 + length payload ≤ max_ip_payload
    → (more ≡ true → length payload % 8 ≡ 0)
    → parse_ip (
        ip_packet destination_mac gateway_mac source_ip destination_ip protocol payload
          identification
          (flags_word keep_whole more unit))
      ≡ some (record {
        packet = record {
          source = source_ip;
          destination = destination_ip;
          protocol = protocol;
          payload = payload;
        };
        identification = identification;
        header_length = ipv4_size;
        offset = unit * 8;
        more_fragments = more;
      })
unfolding ip_packet
parse_ip-ip_packet destination_mac gateway_mac source_ip destination_ip protocol payload
      identification unit keep_whole more dm gm s d p i n fits whole =
    let word = flags_word keep_whole more unit in
    let header =
      ip_header source_ip destination_ip protocol (ipv4_size + length payload) identification
        word in
    let check = checksum (header 0 ∷ []) in
    rw (← append_assoc destination_mac gateway_mac (u16_then ipv4_type (header check ++ payload))) (
      parse_ip_link (destination_mac ++ gateway_mac) (header check ++ payload)
        (omega (arith, length-append destination_mac gateway_mac)) (unfold ip_header in omega arith)
      ∙ parse_ipv4-header source_ip destination_ip protocol check payload identification unit
          keep_whole more s d p i n fits whole)
