-- ===== src/Interplex/Contact/Examples.antt =====
-- A contact with a local address and two of type IP.
use unisphere.Prelude.{◌≡◌, refl, none, some, arith, [], ◌∷◌, replicate}
use unisphere.Prelude.Int.{pos, negsuc}
use unisphere.Interplex.Contact.{
  Contact, ContactLibrary, null_contact, ip, local, contact_to_message, contact_of_message,
  default_priority,
}
use unisphere.Interplex.Contact.Laws.{contact_of_message-contact_to_message}

-- Keys of 64 bytes, and hosts whose text is their bytes
abbrev library : ContactLibrary
library = record {
  key_size = 64;
  hash = λ key. record { identifier = replicate 20 7 };
  to_string = λ host. host;
  from_string = λ text. some text;
}

abbrev reachable : Contact
reachable = record {
  peer_key = record { bytes = replicate 64 1; hashed = record { identifier = replicate 20 7 } };
  addresses =
      record { priority = negsuc 4; address = local (3 ∷ []) }
      ∷ record { priority = pos 1; address = ip (127 ∷ []) 8001 }
      ∷ record { priority = pos 20; address = ip (10 ∷ []) 8002 }
      ∷ [];
}

contact_of_message-contact_to_message_example :
    contact_of_message library (contact_to_message library reachable)
    ≡ some (record reachable {
      addresses =
          record { priority = default_priority; address = ip (127 ∷ []) 8001 }
          ∷ record { priority = default_priority; address = ip (10 ∷ []) 8002 }
          ∷ [];
    })
contact_of_message-contact_to_message_example =
    contact_of_message-contact_to_message library (λ h. refl) reachable
      (tt, (omega arith, (omega arith, tt))) refl

-- The null contact is refused.
null_refused : contact_of_message library (contact_to_message library null_contact) ≡ none
unfolding contact_of_message contact_to_message
null_refused = refl
