-- ===== src/Tunnel/Tests.antt =====
-- tunnel.rs: a socket that greets and ends.
use crosspaste_server.Auth.{trim, trim_end, trim_start}
use crosspaste_server.Prelude.{
  false, if◌then◌else◌, is_some, is_some_and, nat_Comparable, none, pair_Comparable, refl, some,
  string_Comparable, true, ◌==◌, ◌≡◌,
}
use crosspaste_server.Prelude.Int.{int_Comparable, pos}
use crosspaste_server.Prelude.Map.{insert, lookup, without}
use crosspaste_server.Prelude.Text.{codes_Comparable, is_whitespace}
use crosspaste_server.Protocol.{TunnelFrame, hello}
use crosspaste_server.Registry.Devices.{
  disconnect, evict_old, fail_all, register_device, session_of, unregister_device,
}
use crosspaste_server.Registry.Samples.{start}
use crosspaste_server.Registry.State.{
  Registry, get_device, put_session, send, send_on, drop_receiver,
}
use crosspaste_server.Tunnel.Closed.{close_socket-own}
use crosspaste_server.Tunnel.Socket.{Reading, Socket, close_socket, finish, greet, receive_frame}

abbrev socket : Socket
socket = record { tx = 7; app_instance_id = none; session_id = none }

abbrev reading : Reading
reading = record { package_version = "1.2.6"; uuid = "s1"; now = pos 5 }

abbrev hello_phone : TunnelFrame
hello_phone = hello "phone" (some "Phone") none none

abbrev greeted : Socket × Registry
greeted = receive_frame reading hello_phone socket start

abbrev own : Socket
own = record { tx = 7; app_instance_id = some "phone"; session_id = some "s1" }

greets : greeted.0 ≡ own
unfolding receive_frame greet trim trim_start trim_end register_device session_of evict_old
    get_device lookup is_whitespace
greets = refl

-- The device is online, and then it is not.
comes_and_goes :
    (is_some (get_device "phone" greeted.1) ≡ true)
    × (is_some (get_device "phone" (close_socket own greeted.1)) ≡ false)
unfolding receive_frame greet trim trim_start trim_end register_device session_of evict_old
    get_device lookup is_whitespace insert without send send_on close_socket finish
    unregister_device disconnect put_session fail_all drop_receiver
comes_and_goes = (refl, refl)

close_socket-own_example :
    (get_device "phone" (close_socket own greeted.1) ≡ (
      if is_some_and (λ d. d.session_id == "s1") (get_device "phone" greeted.1)
      then none
      else get_device "phone" greeted.1))
    × ((send 7 hello_phone (close_socket own greeted.1)).0 ≡ false)
close_socket-own_example = close_socket-own own greeted.1 "phone" "s1" hello_phone refl refl
