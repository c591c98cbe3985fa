-- ===== src/Removal/Rows.antt =====
-- What the statements of a removal take away, and that they take nothing from anybody else.
use sub2api_gate.Base.{ℕ, ◌≡◌, ◌≢◌, refl, not, ◌&&◌, [], arith, ◌==◌, nat_eq, keep}
use sub2api_gate.Database.{Db}
use sub2api_gate.Database.Tables.{
  keep-update_where, keep-update_where_none, keep-delete_where, keep-delete_where_none,
}
use sub2api_gate.Removal.{
  is_live_key, is_live_subscription, disable_one_key, disable_keys, cancel_subscriptions,
  drop_allowed, disable_user, delete_one_key, delete_user,
}

-- All rows of one user.
pub record SameUser (v : ℕ) (d d' : Db) : Type 0 where
  pub users : keep (λ u. u.id == v) d'.users ≡ keep (λ u. u.id == v) d.users
  pub keys : keep (λ k. k.user_id == v) d'.keys ≡ keep (λ k. k.user_id == v) d.keys
  pub subscriptions :
      keep (λ s. s.user_id == v) d'.subscriptions ≡ keep (λ s. s.user_id == v) d.subscriptions
  pub allowed : keep (λ a. a.user_id == v) d'.allowed ≡ keep (λ a. a.user_id == v) d.allowed
  pub owners : keep (λ o. o.user_id == v) d'.owners ≡ keep (λ o. o.user_id == v) d.owners

-- Nobody's rows but those of `id` have changed, and no group, plan or counter has.
pub record OnlyUser (id : ℕ) (d d' : Db) : Type 0 where
  pub others : (v : ℕ) → v ≢ id → SameUser v d d'
  pub groups : d'.groups ≡ d.groups
  pub plans : d'.plans ≡ d.plans
  pub next_user : d'.next_user ≡ d.next_user
  pub next_key : d'.next_key ≡ d.next_key
  pub next_group : d'.next_group ≡ d.next_group

pub SameUser-refl : (v : ℕ) (d : Db) → SameUser v d d
SameUser-refl v d = record {
  users = refl;
  keys = refl;
  subscriptions = refl;
  allowed = refl;
  owners = refl;
}

pub OnlyUser-refl : (id : ℕ) (d : Db) → OnlyUser id d d
OnlyUser-refl id d = record {
  others = λ v ne. SameUser-refl v d;
  groups = refl;
  plans = refl;
  next_user = refl;
  next_key = refl;
  next_group = refl;
}

-- The user has no access left: no live key, no live subscription, no group, and is deleted.
pub record NoAccess (id : ℕ) (d : Db) : Type 0 where
  pub keys : keep (is_live_key id) d.keys ≡ []
  pub subscriptions : keep (is_live_subscription id) d.subscriptions ≡ []
  pub allowed : keep (λ a. a.user_id == id) d.allowed ≡ []
  pub users : keep (λ u. u.id == id && not u.deleted) d.users ≡ []

-- No row names the user.
pub record NoRows (id : ℕ) (d : Db) : Type 0 where
  pub keys : keep (λ k. k.user_id == id) d.keys ≡ []
  pub subscriptions : keep (λ s. s.user_id == id) d.subscriptions ≡ []
  pub allowed : keep (λ a. a.user_id == id) d.allowed ≡ []
  pub owners : keep (λ o. o.user_id == id) d.owners ≡ []
  pub users : keep (λ u. u.id == id) d.users ≡ []

abbrev end_user : ℕ → Db → Db
end_user id d = disable_user id (drop_allowed id (cancel_subscriptions id (disable_keys id d)))

module _ (id : ℕ) (d : Db) where
  pub end_user-NoAccess : NoAccess id (end_user id d)
  unfolding disable_user drop_allowed cancel_subscriptions disable_keys
  end_user-NoAccess = record {
    keys = keep-update_where_none _ _ _ d.keys (λ k h. h) (λ k h. ground arith);
    subscriptions = keep-update_where_none _ _ _ d.subscriptions (λ s h. h) (λ s h. ground arith);
    allowed = keep-delete_where_none _ _ d.allowed (λ a h. h);
    users = keep-update_where_none _ _ _ d.users (λ u h. ground arith) (λ u h. ground arith);
  }

  pub end_user-OnlyUser : OnlyUser id d (end_user id d)
  unfolding disable_user drop_allowed cancel_subscriptions disable_keys
  end_user-OnlyUser = record {
    others = λ v ne. record {
      users = keep-update_where _ _ _ d.users (λ u h. ground arith);
      keys = keep-update_where _ _ _ d.keys (λ k h. ground arith);
      subscriptions = keep-update_where _ _ _ d.subscriptions (λ s h. ground arith);
      allowed = keep-delete_where _ _ d.allowed (λ a h. ground arith);
      owners = refl;
    };
    groups = refl;
    plans = refl;
    next_user = refl;
    next_key = refl;
    next_group = refl;
  }

  pub delete_user-NoRows : NoRows id (delete_user id d)
  unfolding delete_user
  delete_user-NoRows = record {
    keys = keep-delete_where_none _ _ d.keys (λ k h. h);
    subscriptions = keep-delete_where_none _ _ d.subscriptions (λ s h. h);
    allowed = keep-delete_where_none _ _ d.allowed (λ a h. h);
    owners = keep-delete_where_none _ _ d.owners (λ o h. h);
    users = keep-delete_where_none _ _ d.users (λ u h. h);
  }

  pub delete_user-OnlyUser : OnlyUser id d (delete_user id d)
  unfolding delete_user
  delete_user-OnlyUser = record {
    others = λ v ne. record {
      users = keep-delete_where _ _ d.users (λ u h. ground arith);
      keys = keep-delete_where _ _ d.keys (λ k h. ground arith);
      subscriptions = keep-delete_where _ _ d.subscriptions (λ s h. ground arith);
      allowed = keep-delete_where _ _ d.allowed (λ a h. ground arith);
      owners = keep-delete_where _ _ d.owners (λ o h. ground arith);
    };
    groups = refl;
    plans = refl;
    next_user = refl;
    next_key = refl;
    next_group = refl;
  }

  module _ (key_id : ℕ) where
    pub disable_one_key-OnlyUser : OnlyUser id d (disable_one_key key_id id d)
    unfolding disable_one_key
    disable_one_key-OnlyUser = record {
      others = λ v ne. record {
        users = refl;
        keys = keep-update_where _ _ _ d.keys (λ k h. ground arith);
        subscriptions = refl;
        allowed = refl;
        owners = refl;
      };
      groups = refl;
      plans = refl;
      next_user = refl;
      next_key = refl;
      next_group = refl;
    }

    pub disable_one_key-gone :
        keep (λ k. k.id == key_id && is_live_key id k) (disable_one_key key_id id d).keys ≡ []
    unfolding disable_one_key
    disable_one_key-gone = keep-update_where_none _ _ _ d.keys (λ k h. h) (λ k h. ground arith)

    pub delete_one_key-OnlyUser : OnlyUser id d (delete_one_key key_id id d)
    unfolding delete_one_key
    delete_one_key-OnlyUser = record {
      others = λ v ne. record {
        users = refl;
        keys = keep-delete_where _ _ d.keys (λ k h. ground arith);
        subscriptions = refl;
        allowed = refl;
        owners = refl;
      };
      groups = refl;
      plans = refl;
      next_user = refl;
      next_key = refl;
      next_group = refl;
    }

    pub delete_one_key-gone :
        keep (λ k. k.id == key_id && k.user_id == id) (delete_one_key key_id id d).keys ≡ []
    unfolding delete_one_key
    delete_one_key-gone = keep-delete_where_none _ _ d.keys (λ k h. h)
