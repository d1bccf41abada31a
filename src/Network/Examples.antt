-- ===== src/Network/Examples.antt =====
-- packages/linux-guest/src/network.ts: packets, fragments and segments at concrete inputs.
use distro.Common.{◌%◌, ◌≢◌, ℕ, ◌≡◌, refl, true, false, List, [], ◌∷◌, none, some, arith, replicate}
use distro.Network.Checksum.{checksum, checksum_verifies, with_word, words, IsEven}
use distro.Network.Packet.{
  ParsedIpFragment, ParsedTcpSegment, parse_ip, parse_tcp, parse_udp, ip_packet, tcp_segment,
  udp_datagram,
}
use distro.Network.Packet.Parsing.{
  flags_word, parse_ip-ip_packet, parse_tcp-tcp_segment, parse_udp-udp_datagram,
}
use distro.Network.Tcp.Tracking.{InOrder}
use distro.Network.Reassembly.{
  IpReassembly, Reassemblies, add_fragment, reassemble_ip, ip_reassembly_key,
}
use distro.Network.Reassembly.Insertion.{IsSound, Lands, add_fragment-Lands}
use distro.Network.Reassembly.Table.{IsTable, reassemble_ip-IsTable}
use distro.Network.Tcp.{
  TcpFlow, Readable, receive_tcp, tcp_receive_window, process_tcp, process_established, note_ack,
  send_tcp, accept_segment, has_ended, finish_segment, accept_payload,
}
use distro.Network.Tcp.Receive.{receive_all, receive_all-InOrder}

abbrev hello : List ℕ
hello = 104 ∷ 101 ∷ 108 ∷ 108 ∷ 111 ∷ []

abbrev gateway : ℕ
gateway = 0x0a000001

abbrev guest : ℕ
guest = 0x0a000002

checksum_verifies_example :
    let packet =
      with_word
        (69 ∷ 0 ∷ [])
        (checksum (with_word (69 ∷ 0 ∷ []) 0 (10 ∷ 1 ∷ 7 ∷ []) ∷ []))
        (10 ∷ 1 ∷ 7 ∷ []) in
    (words packet % 65535 ≡ 0) × (words packet ≢ 0) × (checksum (packet ∷ []) ≡ 0)
unfolding IsEven
checksum_verifies_example =
    checksum_verifies (69 ∷ 0 ∷ []) (10 ∷ 1 ∷ 7 ∷ []) tt (omega arith) (omega arith)

parse_udp-udp_datagram_example :
    parse_udp (udp_datagram 53 4000 hello)
    ≡ some (record { source_port = 53; destination_port = 4000; payload = hello })
parse_udp-udp_datagram_example =
    parse_udp-udp_datagram 53 4000 hello (omega arith) (omega arith) (omega arith)

abbrev data_segment : ParsedTcpSegment
data_segment = record {
  source_port = 80;
  destination_port = 4000;
  sequence = 1001;
  acknowledgement = 501;
  flags = 0x18;
  window = 0xffff;
  payload = hello;
}

parse_tcp-tcp_segment_example :
    parse_tcp (tcp_segment gateway guest 80 4000 1001 501 0x18 hello 0xffff) ≡ some data_segment
parse_tcp-tcp_segment_example =
    parse_tcp-tcp_segment gateway guest 80 4000 1001 501 0x18 hello 0xffff (omega arith)
      (omega arith) (omega arith) (omega arith) (omega arith) (omega arith)

-- The second fragment of a packet, the last one, eight bytes in.
abbrev last_fragment : ParsedIpFragment
last_fragment = record {
  packet = record { source = gateway; destination = guest; protocol = 17; payload = hello };
  identification = 7;
  header_length = 20;
  offset = 8;
  more_fragments = false;
}

parse_ip-ip_packet_example :
    parse_ip
      (ip_packet (replicate 6 2) (replicate 6 1) gateway guest 17 hello 7 (flags_word true false 1))
    ≡ some last_fragment
parse_ip-ip_packet_example =
    parse_ip-ip_packet (replicate 6 2) (replicate 6 1) gateway guest 17 hello 7 1 true false refl
      refl (omega arith) (omega arith) (omega arith) (omega arith) (omega arith) (omega arith)
      (λ e. (let no : ⊥ = cc in absurd no))

-- The entry that has the first eight bytes.
abbrev begun : IpReassembly
begun = record {
  source = gateway;
  destination = guest;
  protocol = 17;
  fragments = record { offset = 0; payload = replicate 8 7 } ∷ [];
  total_length = none;
}

begun-IsSound : IsSound begun
begun-IsSound = record { ordered = (omega arith, omega arith, tt); few = omega arith }

add_fragment-Lands_example : Lands last_fragment begun (add_fragment last_fragment begun)
add_fragment-Lands_example = add_fragment-Lands last_fragment begun (omega arith) begun-IsSound

abbrev table : Reassemblies
table = (ip_reassembly_key last_fragment, begun) ∷ []

reassemble_ip-IsTable_example : IsTable (reassemble_ip last_fragment table).0
reassemble_ip-IsTable_example =
    reassemble_ip-IsTable last_fragment table (omega arith)
      (record { sound = (begun-IsSound, tt); few = omega arith })

abbrev fresh_stream : Readable
fresh_stream = record { high_water_mark = 0xffff; queued = 0; received = []; ended = false }

-- A flow whose guest began at sequence number 1001.
abbrev open_flow : TcpFlow
open_flow = record {
  send_sequence = 501;
  receive_sequence = 1001;
  established = true;
  local_ended = false;
  remote_ended = false;
  closed = false;
  ack_waiters = [];
  window_waiters = 0;
  advertised_window = 0xffff;
  peer_window = 0xffff;
  handshake = false;
  readable = some fresh_stream;
  activation = false;
  receive_demand = false;
}

-- The second part of `hello`, which is early, then the whole of it.
abbrev early_segment : ParsedTcpSegment
early_segment = record data_segment { sequence = 1004; payload = 108 ∷ 111 ∷ [] }

receive_all-InOrder_example :
    InOrder 1001 hello (receive_all open_flow (early_segment ∷ data_segment ∷ []))
unfolding receive_tcp process_tcp process_established note_ack send_tcp tcp_receive_window
    accept_segment has_ended finish_segment accept_payload
receive_all-InOrder_example =
    receive_all-InOrder 1001 hello open_flow (early_segment ∷ data_segment ∷ []) (omega arith)
      ((104 ∷ 101 ∷ 108 ∷ [], [], refl, refl), (([], [], refl, refl), tt)) refl
      (refl, refl, (hello, refl)) refl
