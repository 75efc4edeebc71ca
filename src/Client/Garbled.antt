-- ===== src/Client/Garbled.antt =====
-- A login with a password that is not ASCII: the client program (FunctionalClientTest/maindialog.cpp)
-- writes its UTF-8, and the server (smartlink/st_clientnode_app_imp.cpp) takes each byte for a
-- character.
use zpserver.Common.{
  ℕ, ◌+◌, ◌≤◌, ◌<◌, ◌≡◌, ◌≢◌, ap, sym, ◌∙◌, ◌⊎◌, inl, inr, [], ◌∷◌, arith, length, length-append,
  Text, to_utf8, bytes,
}
use zpserver.Common.Utf8.RoundTrip.{
  IsPlain, ArePlain, unit_bytes-cases, to_utf8-NoNul, to_utf8-plain,
}
use zpserver.Common.Utf8.{unit_bytes}
use zpserver.Smartlink.App.Requests.{login_password}
use zpserver.Client.Requests.{trans_header, app_header, login_request}
use zpserver.Client.RoundTrip.{password_of_lem}

-- A character of the text is not ASCII.
abbrev pub HasForeign : Text → Type 0
HasForeign [] = ⊥
HasForeign (c ∷ s) = (128 ≤ c) ⊎ HasForeign s

unit_bytes_least : (c : ℕ) → IsPlain c → 1 ≤ length (unit_bytes c)
unit_bytes_least c p = elim (unit_bytes-cases c p) [
  | inl (small, e) ↦ rw e (omega arith)
  | inr (inl (big, small, e)) ↦ rw e (omega arith)
  | inr (inr (big, e)) ↦ rw e (omega arith)
]

unit_bytes_longer : (c : ℕ) → IsPlain c → 128 ≤ c → 2 ≤ length (unit_bytes c)
unit_bytes_longer c p foreign = elim (unit_bytes-cases c p) [
  | inl (small, e) ↦ absurd (omega arith)
  | inr (inl (big, small, e)) ↦ rw e (omega arith)
  | inr (inr (big, e)) ↦ rw e (omega arith)
]

length-plain :
    (c : ℕ) (s : Text)
    → IsPlain c
    → length (to_utf8 (c ∷ s)) ≡ length (unit_bytes c) + length (to_utf8 s)
length-plain c s p = ap length (to_utf8-plain c s p) ∙ length-append (unit_bytes c) (to_utf8 s)

to_utf8_least : (s : Text) → ArePlain s → length s ≤ length (to_utf8 s)
to_utf8_least [] ps = omega arith
to_utf8_least (c ∷ s) (p, nonzero, ps) =
    omega (arith, length-plain c s p, unit_bytes_least c p, to_utf8_least s ps)

to_utf8_longer : (s : Text) → ArePlain s → HasForeign s → length s < length (to_utf8 s)
to_utf8_longer [] ps foreign = absurd foreign
to_utf8_longer (c ∷ s) (p, nonzero, ps) (inl here) =
    omega (arith, length-plain c s p, unit_bytes_longer c p here, to_utf8_least s ps)
to_utf8_longer (c ∷ s) (p, nonzero, ps) (inr later) =
    omega (arith, length-plain c s p, unit_bytes_least c p, to_utf8_longer s ps later)

-- A password of characters of 16 bits, none of them zero and one of them not ASCII, of at most 65
-- bytes in UTF-8: the server reads the bytes of its UTF-8, one character each, and so another
-- password than the one that was entered.
pub login_password_garbled :
    (user : ℕ) (password : Text)
    → ArePlain password
    → HasForeign password
    → length (to_utf8 password) ≤ 65
    → (login_password (login_request user password) ≡ to_utf8 password)
      × (login_password (login_request user password) ≢ password)
unfolding login_password login_request trans_header app_header bytes to_utf8
login_password_garbled user password plain foreign short =
    let read = password_of_lem 65 (to_utf8 password) (to_utf8-NoNul password plain) short in
    let longer = to_utf8_longer password plain foreign in
    (read, λ e. omega (arith, longer, ap length (sym read ∙ e)))
