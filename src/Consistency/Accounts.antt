-- ===== src/Consistency/Accounts.antt =====
-- The changes of the tables of accounts and scans, and the constraints.
use proyecto_1_back.Prelude.{ℕ, ◌≡◌, refl, true, any, ◌==◌}
use proyecto_1_back.Text.{text_eq}
use proyecto_1_back.Models.{Db}
use proyecto_1_back.Sql.Distinct.{Distinct-insert}
use proyecto_1_back.Repositories.RefreshTokens.{revoke_row}
use proyecto_1_back.Trace.Change.{
  AccountChange, user_added, token_added, tokens_revoked, scan_added,
}
use proyecto_1_back.Consistency.{IsConsistent}
use proyecto_1_back.Consistency.Tables.{
  any-insert_old, Refers-parents, Refers-insert, Distinct-update_where, All-update_where,
}

-- A commit to the tables of accounts and scans keeps the constraints.
pub AccountChange-IsConsistent :
    (db db' : Db) → AccountChange db db' → IsConsistent db → IsConsistent db'
AccountChange-IsConsistent db db' (user_added u i) c =
    let old = λ (k : ℕ) (h : any (λ x. x.id == k) db.users ≡ true).
      any-insert_old (λ x. x.id == k) db.users u h in
    rw i.stored (record {
      users = record {
        ids = Distinct-insert (λ x y. x.id == y.id) db.users u i.id_free c.users.ids;
        emails =
            Distinct-insert (λ x y. text_eq x.email y.email) db.users u i.email_free c.users.emails;
      };
      tokens = record {
        ids = c.tokens.ids;
        hashes = c.tokens.hashes;
        owned =
            Refers-parents (λ t. t.user_id) (λ x. x.id) db.refresh_tokens db.users _ old
              c.tokens.owned;
      };
      restaurants = record {
        ids = c.restaurants.ids;
        owners = c.restaurants.owners;
        slugs = c.restaurants.slugs;
        owned =
            Refers-parents (λ r. r.owner_user_id) (λ x. x.id) db.restaurants db.users _ old
              c.restaurants.owned;
      };
      categories = c.categories;
      dishes = c.dishes;
      scans = c.scans;
    })
AccountChange-IsConsistent db db' (token_added t i) c = rw i.stored (record {
  users = c.users;
  tokens = record {
    ids = Distinct-insert (λ x y. x.id == y.id) db.refresh_tokens t i.id_free c.tokens.ids;
    hashes =
        Distinct-insert (λ x y. text_eq x.token_hash y.token_hash) db.refresh_tokens t i.hash_free
          c.tokens.hashes;
    owned =
        Refers-insert (λ t. t.user_id) (λ x. x.id) db.refresh_tokens db.users t i.user_there
          c.tokens.owned;
  };
  restaurants = c.restaurants;
  categories = c.categories;
  dishes = c.dishes;
  scans = c.scans;
})
AccountChange-IsConsistent db db' (tokens_revoked test now e) c = rw e (record {
  users = c.users;
  tokens = record {
    ids =
        Distinct-update_where test (revoke_row now) (λ t. t.id) ◌==◌ db.refresh_tokens (λ _. refl)
          c.tokens.ids;
    hashes =
        Distinct-update_where test (revoke_row now) (λ t. t.token_hash) text_eq db.refresh_tokens
          (λ _. refl) c.tokens.hashes;
    owned =
        All-update_where test (revoke_row now) (λ t. any (λ u. u.id == t.user_id) db.users ≡ true)
          db.refresh_tokens (λ _ h. h) c.tokens.owned;
  };
  restaurants = c.restaurants;
  categories = c.categories;
  dishes = c.dishes;
  scans = c.scans;
})
AccountChange-IsConsistent db db' (scan_added s i) c = rw i.stored (record {
  users = c.users;
  tokens = c.tokens;
  restaurants = c.restaurants;
  categories = c.categories;
  dishes = c.dishes;
  scans = record {
    ids = Distinct-insert (λ x y. x.id == y.id) db.scan_events s i.id_free c.scans.ids;
    inside =
        Refers-insert (λ e. e.restaurant_id) (λ r. r.id) db.scan_events db.restaurants s
          i.restaurant_there c.scans.inside;
  };
})
