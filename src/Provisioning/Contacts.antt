-- ===== src/Provisioning/Contacts.antt =====
-- backend/services/organizationProvisioningCore.js, `getAdministrativeContactUniquenessErrors`.
use civitas.Prelude.{
  ℕ, suc, ◌≡◌, refl, ◌⊎◌, ◌∙◌, Bool, true, false, not, ◌&&◌, Option, none, some, List, [], ◌∷◌,
  String, str_eq, any, all, is_nil, inl, inr, Bool-cases, arith,
}
use civitas.Provisioning.{Contact, truthy}

-- An error names the place of the contact and the email that is repeated.
pub record UniquenessError : Type 0 where
  pub contact_index : ℕ
  pub email : String

abbrev was_seen : List String → String → Bool
was_seen seen email = any (λ s. str_eq s email) seen

-- The loop, from the index of a contact and the emails seen before it.
abbrev with_error : Bool → UniquenessError → List UniquenessError → List UniquenessError
with_error true e rest = e ∷ rest
with_error false e rest = rest

abbrev seen_after : Bool → List String → Option String → List String
seen_after true seen email = seen
seen_after false seen none = seen
seen_after false seen (some email) = email ∷ seen

abbrev is_repeated : List String → Option String → Bool
is_repeated seen none = false
is_repeated seen (some email) = was_seen seen email

abbrev email_text : Option String → String
email_text none = ""
email_text (some email) = email

unfoldable pub errors_from : List String → ℕ → List Contact → List UniquenessError
unfolding any
errors_from seen index [] = []
errors_from seen index (contact ∷ contacts) =
    let email = truthy contact.email in
    with_error (is_repeated seen email) (record { contact_index = index; email = email_text email })
      (errors_from (seen_after (is_repeated seen email) seen email) (suc index) contacts)

unfoldable pub get_administrative_contact_uniqueness_errors : List Contact → List UniquenessError
unfolding errors_from
get_administrative_contact_uniqueness_errors contacts = errors_from [] 0 contacts

-- The emails that the contacts have, and whether no two of them are equal.
abbrev with_email : Option String → List String → List String
with_email none rest = rest
with_email (some email) rest = email ∷ rest

unfoldable pub emails_of : List Contact → List String
emails_of [] = []
emails_of (contact ∷ contacts) = with_email (truthy contact.email) (emails_of contacts)

unfoldable pub are_distinct : List String → Bool
unfolding all
are_distinct [] = true
are_distinct (e ∷ es) = all (λ x. not (str_eq e x)) es && are_distinct es

unseen-cons :
    (e : String) (seen es : List String)
    → all (λ x. not (was_seen (e ∷ seen) x)) es
      ≡ (all (λ x. not (was_seen seen x)) es && all (λ x. not (str_eq e x)) es)
unfolding all any
unseen-cons e seen [] = refl
unseen-cons e seen (x ∷ es) = ground (arith, unseen-cons e seen es)

all-unseen : (es : List String) → all (λ x. not (was_seen [] x)) es ≡ true
unfolding all any
all-unseen [] = refl
all-unseen (e ∷ es) = all-unseen es

email-cases : (o : Option String) → (o ≡ none) ⊎ ((e : String) × (o ≡ some e))
email-cases none = inl refl
email-cases (some e) = inr (e, refl)

is_nil-errors_from :
    (seen : List String) (index : ℕ) (contacts : List Contact)
    → is_nil (errors_from seen index contacts)
      ≡ (all (λ x. not (was_seen seen x)) (emails_of contacts) && are_distinct (emails_of contacts))
unfolding errors_from emails_of are_distinct all
is_nil-errors_from seen index [] = refl
is_nil-errors_from seen index (contact ∷ contacts) =
    let es = emails_of contacts in
    elim (email-cases (truthy contact.email)) [
      | inl n ↦ rw n (is_nil-errors_from seen (suc index) contacts)
      | inr (e, s) ↦ rw s (elim (Bool-cases (was_seen seen e)) [
        | inl w ↦ rw w refl
        | inr w ↦ rw w (
            is_nil-errors_from (e ∷ seen) (suc index) contacts
            ∙ ground (arith, unseen-cons e seen es))
      ])
    ]

-- There is no error exactly if no two contacts have one email.
pub get_administrative_contact_uniqueness_errors_iff :
    (contacts : List Contact)
    → is_nil (get_administrative_contact_uniqueness_errors contacts)
      ≡ are_distinct (emails_of contacts)
unfolding get_administrative_contact_uniqueness_errors any
get_administrative_contact_uniqueness_errors_iff contacts =
    is_nil-errors_from [] 0 contacts ∙ rw (all-unseen (emails_of contacts)) refl
