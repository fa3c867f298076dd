-- ===== src/UniqueId/Machine/Interfaces.antt =====
-- Which network interface gives the MAC address.
use apache_thrift_benchmarki.Prelude.{
  ◌≡◌, ◌≢◌, refl, true, false, List, [], ◌∷◌, ◌++◌, none, some, arith, ◌⊎◌,
}
use apache_thrift_benchmarki.Format.{Text, c_string}
use apache_thrift_benchmarki.UniqueId.Machine.{Interface, query, find_mac}

-- A system call fails for the interface, or its address is the empty text.
abbrev pub IsUseless : Interface → Type 0
IsUseless ifr =
    (ifr.flags ≡ false)
    ⊎ (ifr.hwaddr ≡ none)
    ⊎ ((d : Text) × (ifr.hwaddr ≡ some d) × (c_string d ≡ []))

abbrev pub AllUseless : List Interface → Type 0
AllUseless [] = Unit {0}
AllUseless (ifr ∷ rest) = IsUseless ifr × AllUseless rest

query_useless : (ifr : Interface) → IsUseless ifr → query ifr [] ≡ ([], false)
unfolding query
query_useless ifr h = ground arith

query_useful :
    (ifr : Interface) (mac d : Text)
    → ifr.flags ≡ true
    → ifr.hwaddr ≡ some d
    → c_string d ≢ []
    → query ifr mac ≡ (c_string d, true)
unfolding query
query_useful ifr mac d up e h = ground arith

-- The MAC address is that of the first interface for which both ioctl calls succeed and whose
-- address is not the empty text, whatever interfaces come after it.
pub find_mac_first :
    (before after : List Interface) (ifr : Interface) (d : Text)
    → AllUseless before
    → ifr.flags ≡ true
    → ifr.hwaddr ≡ some d
    → c_string d ≢ []
    → find_mac (before ++ ifr ∷ after) [] ≡ c_string d
unfolding find_mac
find_mac_first [] after ifr d u up e h = rw (query_useful ifr [] d up e h, find_mac)
find_mac_first (x ∷ before) after ifr d u up e h =
    rw (query_useless x u.0, find_mac) (find_mac_first before after ifr d u.1 up e h)

-- Without one the address is the empty text.
pub find_mac_none : (ifrs : List Interface) → AllUseless ifrs → find_mac ifrs [] ≡ []
unfolding find_mac
find_mac_none [] u = refl
find_mac_none (x ∷ ifrs) u = rw (query_useless x u.0, find_mac) (find_mac_none ifrs u.1)
