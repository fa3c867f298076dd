-- ===== src/UniqueId/Machine/Answer.antt =====
-- What `GetMachineId` answers: three digits of the hash, or nothing; and the socket that it leaves
-- open.
use apache_thrift_benchmarki.Prelude.{
  ℕ, ◌+◌, ◌-◌, ◌≡◌, refl, ◌∙◌, List, [], none, some, arith, if◌then◌else◌, Bool-cases, Option-cases,
  inl, inr,
}
use apache_thrift_benchmarki.Prelude.Int.{ℤ, pos, negsuc}
use apache_thrift_benchmarki.Format.{Text, digits, to_hex}
use apache_thrift_benchmarki.Format.Width.{fit, fit-to_hex}
use apache_thrift_benchmarki.UniqueId.Process.{Process, Line, returned, print}
use apache_thrift_benchmarki.UniqueId.Machine.{
  Interface, Host, find_mac, hash_mac_address_pid, to_machine_id, get_machine_id,
}

to_machine_id-fit : (s : Text) → to_machine_id s ≡ fit 3 s
unfolding to_machine_id fit
to_machine_id-fit s = ground arith

-- Three characters: the last three hexadecimal digits, leading zeros included.
pub to_machine_id-to_hex : (n : ℕ) → to_machine_id (to_hex n) ≡ digits 16 3 n
to_machine_id-to_hex n = to_machine_id-fit (to_hex n) ∙ fit-to_hex 3 13 n refl

-- Which of the two system calls fails first, if one does; otherwise the interfaces.
pub data Survey : Type 0 where
  no_socket no_interfaces : Survey
  listed : List Interface → Survey

abbrev pub survey : Host → Survey
survey host =
    if host.socket
    then elim host.interfaces [ none ↦ no_interfaces | some ifrs ↦ listed ifrs ]
    else no_socket

-- What `GetMachineId` returns and stores: -1 and nothing, or 0 and the last three hexadecimal digits
-- of the hash.
abbrev pub answer : Host → Survey → ℤ × Text
answer host no_socket = (negsuc 0, [])
answer host no_interfaces = (negsuc 0, [])
answer host (listed ifrs) =
    (pos 0, digits 16 3 (hash_mac_address_pid (find_mac ifrs []) host.beyond host.pid))

-- The process after it: a complaint on each failure, and the socket still open after the second.
abbrev pub surveyed : Survey → Process → Process
surveyed no_socket p = print Line.no_mac_address p
surveyed no_interfaces p = print Line.no_mac_address (record p { sockets = p.sockets + 1 })
surveyed (listed ifrs) p = p

reopened : (n : ℕ) → n + 1 - 1 ≡ n
reopened n = omega arith

-- get_machine_id always returns: where both system calls succeed it gives 0 and the last three
-- hexadecimal digits of the hash, leading zeros included, and closes its socket; where one fails it
-- gives -1 and an empty text and prints a complaint, and where SIOCGIFCONF is the one that fails
-- the socket stays open.
pub get_machine_id_lem :
    (host : Host) (p : Process)
    → get_machine_id host p ≡ (returned (answer host (survey host)), surveyed (survey host) p)
unfolding get_machine_id
get_machine_id_lem host p = elim (Bool-cases host.socket) [
  | inr none_left ↦ rw none_left
  | inl made ↦ elim (Option-cases host.interfaces) [
    | inl failed ↦ rw (made, failed)
    | inr (ifrs, e) ↦
        rw (made, e)
          (cc (
            to_machine_id-to_hex (hash_mac_address_pid (find_mac ifrs []) host.beyond host.pid),
            reopened p.sockets,
          ))
  ]
]
