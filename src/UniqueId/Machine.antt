-- ===== src/UniqueId/Machine.antt =====
-- `HashMacAddressPid` and `GetMachineId`: three hexadecimal digits for the machine. What the system
-- calls answer, and the memory behind the MAC address text, are arguments.
pub mod Hash
pub mod Interfaces
pub mod Answer
use apache_thrift_benchmarki.Prelude.{
  ℕ, zero, suc, ◌+◌, ◌-◌, ◌*◌, ◌%◌, ◌^◌, ◌≡◌, refl, Bool, true, false, not, List, [], ◌∷◌, ◌++◌,
  Option, none, some, ltb, ◌==◌, if◌then◌else◌, length, get_or,
}
use apache_thrift_benchmarki.Prelude.Int.{ℤ, pos, negsuc}
use apache_thrift_benchmarki.Format.{
  Text, codes, c_string, to_hex, to_string, zeros_before, erase_front, strip, digits, digit_char,
}
use apache_thrift_benchmarki.UniqueId.Process.{
  Process, Line, Outcome, M, returned, print, say, start, return, ◌>>=◌, ◌>>◌,
}

-- `int16_t` of a `char`, which is signed, as the 16 bits that `hash +=` adds.
unfoldable pub signed_char : ℕ → ℕ
signed_char c = if ltb c 128 then c else c + 2 ^ 16 - 256

-- `mac[i]`: the terminator at `i == mac.size()`, and whatever byte lies in memory behind it.
unfoldable pub char_at : Text → (ℕ → ℕ) → ℕ → ℕ
char_at mac beyond i = get_or mac i (if i == length mac then 0 else beyond i)

-- `hash += ( mac[i] << (( i & 1 ) * 8 ))`; `hash` is a uint16_t.
unfoldable pub hash_round : Text → (ℕ → ℕ) → ℕ → ℕ → ℕ
unfolding signed_char char_at
hash_round mac beyond i hash =
    (hash + signed_char (char_at mac beyond i) * 2 ^ (i % 2 * 8)) % 2 ^ 16

-- The rounds of the loop from `i` on.
unfoldable pub hash_rounds : Text → (ℕ → ℕ) → ℕ → ℕ → ℕ → ℕ
unfolding hash_round
hash_rounds mac beyond zero i hash = hash
hash_rounds mac beyond (suc rounds) i hash =
    hash_rounds mac beyond rounds (i + 1) (hash_round mac beyond i hash)

-- `HashMacAddressPid(mac)` in the process `pid`. The loop runs over `mac + to_string(pid)` and reads
-- `mac`.
unfoldable pub hash_mac_address_pid : Text → (ℕ → ℕ) → ℕ → ℕ
unfolding hash_rounds
hash_mac_address_pid mac beyond pid = hash_rounds mac beyond (length (mac ++ to_string pid)) 0 0

-- What the two ioctl calls for one interface answer: success of SIOCGIFFLAGS, and the bytes from
-- `sa_data` on if SIOCGIFHWADDR succeeds.
pub record Interface : Type 0 where
  pub flags : Bool
  pub hwaddr : Option Text

-- What the system tells: whether `socket` succeeds, the interfaces unless SIOCGIFCONF fails, and the
-- process id.
pub record Host : Type 0 where
  pub socket : Bool
  pub interfaces : Option (List Interface)
  pub pid : ℕ
  pub beyond : ℕ → ℕ

abbrev is_empty : Text → Bool
is_empty [] = true
is_empty (c ∷ s) = false

-- One round of the loop over the interfaces: `mac` after it, and whether it breaks. The test for a
-- duplicate compares the addresses of two arrays and never holds.
unfoldable pub query : Interface → Text → Text × Bool
query ifr mac = if not ifr.flags then (mac, false) else elim ifr.hwaddr [
  | none ↦ (mac, false)
  | some sa_data ↦ (c_string sa_data, not (is_empty (c_string sa_data)))
]

unfoldable pub find_mac : List Interface → Text → Text
unfolding query
find_mac [] mac = mac
find_mac (ifr ∷ rest) mac =
    let (mac', broke) = query ifr mac in
    let later = find_mac rest mac' in if broke then mac' else later

-- `close(sock)`, and the fixed width of three characters.
unfoldable pub to_machine_id : Text → Text
to_machine_id s =
    if ltb 3 (length s)
    then erase_front (length s - 3) s
    else if ltb (length s) 3
    then zeros_before (3 - length s) s
    else s

abbrev open_socket : M (Unit {0})
open_socket p = (returned tt, record p { sockets = p.sockets + 1 })

abbrev close_socket : M (Unit {0})
close_socket p = (returned tt, record p { sockets = p.sockets - 1 })

-- `GetMachineId(&mac_hash)` from an empty `mac_hash`: what it returns, and `mac_hash`.
unfoldable pub get_machine_id : Host → M (ℤ × Text)
unfolding find_mac hash_mac_address_pid to_machine_id
get_machine_id host =
    if not host.socket then (do say Line.no_mac_address; return (negsuc 0, [])) else do
      open_socket
      elim host.interfaces [
        | none ↦ do say Line.no_mac_address; return (negsuc 0, [])
        | some ifrs ↦ do
          close_socket
          let hash = hash_mac_address_pid (find_mac ifrs []) host.beyond host.pid
          return (pos 0, to_machine_id (to_hex hash))
      ]
