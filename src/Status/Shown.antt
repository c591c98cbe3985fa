-- ===== src/Status/Shown.antt =====
-- Whose account and which keys `status` shows.
use mathlib.Core.Path.{subst}
use mathlib.Core.List.{Perm}
use sub2api_gate.Base.{
  every, ℕ, ◌≡◌, ◌≤◌, refl, ap, sym, ◌∙◌, true, false, Option, none, some, map, length, Text, ok,
}
use sub2api_gate.Payload.{Python, Fields}
use sub2api_gate.Payload.Identifier.{payload_user_id}
use sub2api_gate.Identity.{Identity, payload_identity}
use sub2api_gate.Token.{max_user_api_keys}
use sub2api_gate.Database.{Db, Exec, ◌>>=◌, pure, lift}
use sub2api_gate.Database.ReadOnly.{bind_ok, lift_ok}
use sub2api_gate.Invite.{InviteRow, owner_of, resolve_invite_user}
use sub2api_gate.Invite.Owned.{OwnersUnique}
use sub2api_gate.Invite.Resolve.{resolve_invite_user-Resolved}
use sub2api_gate.Keys.{KeyReader, live_keys, get_user_keys}
use sub2api_gate.Keys.Shown.{IsDocumented, is_plain_key, view_key, get_user_keys_lem}
use sub2api_gate.Status.{UserView, StatusReply, present, view_user, show_user, status_body}

-- The user belongs to the invite, and what is shown are its live keys, all of them and each once, in
-- some order.
pub record Shown (fp : Text) (view : UserView) (d d' : Db) : Type 0 where
  pub owned : owner_of view.user_id d'.owners ≡ some fp
  pub all : Perm view.tokens (map (view_key d'.groups) (live_keys view.user_id d'))
  pub few : length view.tokens ≤ max_user_api_keys
  pub rest : d' ≡ record d { owners = d'.owners }

module _ (py : Python) (fingerprint password_hash_fingerprint : Text → Text) (reader : KeyReader)
    (laws : IsDocumented reader) where
  show_user_row :
      (uuid : Text) (user : Option InviteRow) (d : Db) (view : UserView) (d' : Db)
      → show_user py fingerprint password_hash_fingerprint reader uuid user d
        ≡ (ok (present view), d')
      → (row : InviteRow) × (user ≡ some row)
  unfolding show_user
  show_user_row uuid none d view d' h = cc
  show_user_row uuid (some row) d view d' h = (row, refl)

  show_user_ok :
      (uuid : Text) (user : Option InviteRow) (d : Db) (view : UserView) (d' : Db)
      → ((id : ℕ) → every (is_plain_key d.groups) (live_keys id d) ≡ true)
      → show_user py fingerprint password_hash_fingerprint reader uuid user d
        ≡ (ok (present view), d')
      → (row : InviteRow) × (user ≡ some row)
        × (row.id ≡ view.user_id)
        × (d ≡ d')
        × Perm view.tokens (map (view_key d.groups) (live_keys row.id d))
        × (length view.tokens ≤ max_user_api_keys)
  unfolding show_user
  show_user_ok uuid none d view d' plain h = cc
  show_user_ok uuid (some row) d view d' plain h =
      let (listed, d1, h1, h2) =
        bind_ok (get_user_keys reader row.id)
          (λ l.
            pure (present (view_user py fingerprint password_hash_fingerprint reader uuid row l)))
          d (present view) d' h in
      let (same, all, few) = get_user_keys_lem reader laws row.id d listed d1 (plain row.id) h1 in
      let made : view_user py fingerprint password_hash_fingerprint reader uuid row listed ≡ view =
        cc in
      let last : d1 ≡ d' = cc in
      (
        row,
        refl,
        ap (λ (v : UserView). v.user_id) made,
        same ∙ last,
        subst (λ (v : UserView). Perm v.tokens (map (view_key d.groups) (live_keys row.id d))) made
            all,
        subst (λ (v : UserView). length v.tokens ≤ max_user_api_keys) made few,
      )

  abbrev IsShown : Text → Db → UserView → ℕ → Db → Type 0
  IsShown fp d view n x =
      (owner_of n x.owners ≡ some fp)
      × (Perm view.tokens (map (view_key x.groups) (live_keys n x))
          × ((length view.tokens ≤ max_user_api_keys) × (x ≡ record d { owners = x.owners })))

  -- An account that is shown belongs to the invite, and its live keys are shown, all of them and each
  -- once, 100 at most; the record of the owner is all that is written. The table of owners is taken to
  -- have unique users, and the cells of the keys to be without tabs, line breaks and outer white space.
  pub status_body-Shown :
      (payload : Fields) (d : Db) (view : UserView) (d' : Db)
      → OwnersUnique d
      → ((id : ℕ) → every (is_plain_key d.groups) (live_keys id d) ≡ true)
      → status_body py fingerprint password_hash_fingerprint reader payload d
        ≡ (ok (present view), d')
      → (who : Identity) × (payload_identity py payload ≡ ok who)
        × Shown (fingerprint who.uuid) view d d'
  unfolding status_body
  status_body-Shown payload d view d' unique plain h =
      let (who, e, h1) = lift_ok (payload_identity py payload) for_who d (present view) d' h in
      let (asked, e2, h2) = lift_ok (payload_user_id payload) (for_id who) d (present view) d' h1 in
      let (user, d1, h3, h4) = bind_ok (resolve who asked) (for_user who) d (present view) d' h2 in
      let (found, is_found) = show_user_row who.uuid user d1 view d' h4 in
      let left =
        (resolve_invite_user-Resolved fingerprint who.uuid who.legacy_username who.username asked 0
          false true found d d1 unique
          (h3 ∙ ap (λ (o : Option InviteRow). (ok o, d1)) is_found)).grew.rest in
      let (row, is_row, id_same, last, all, few) =
        show_user_ok who.uuid user d1 view d'
          (λ id.
            subst (λ (x : Db). every (is_plain_key x.groups) (live_keys id x) ≡ true) (sym left)
              (plain id))
          h4 in
      let r =
        resolve_invite_user-Resolved fingerprint who.uuid who.legacy_username who.username asked 0
          false true row d d1 unique (h3 ∙ ap (λ (o : Option InviteRow). (ok o, d1)) is_row) in
      let (owned, (listed, (short, rest))) =
        subst (λ (x : Db). IsShown (fingerprint who.uuid) d view view.user_id x) last
          (subst (λ (n : ℕ). IsShown (fingerprint who.uuid) d view n d1) id_same
            (r.owned_row.owned, (all, (few, r.grew.rest)))) in
      (who, e, record { owned = owned; all = listed; few = short; rest = rest })
    where
      resolve : Identity → ℕ → Exec (Option InviteRow)
      resolve who asked =
          resolve_invite_user fingerprint who.uuid who.legacy_username who.username asked 0 false
            true

      for_user : Identity → Option InviteRow → Exec StatusReply
      for_user who user = show_user py fingerprint password_hash_fingerprint reader who.uuid user

      for_id : Identity → ℕ → Exec StatusReply
      for_id who asked = resolve who asked >>= for_user who

      for_who : Identity → Exec StatusReply
      for_who who = lift (payload_user_id payload) >>= for_id who
