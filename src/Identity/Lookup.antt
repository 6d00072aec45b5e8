-- ===== src/Identity/Lookup.antt =====
-- Reading and counting users after one row was written.
use versi_go.Prelude.{
  ℕ, ◌+◌, ◌≡◌, Text, eq_text_iff, Bool, some, List, [], ◌∷◌, arith, if◌then◌else◌, count,
}
use versi_go.Identity.{User, find_user, update_user}

abbrev pub bit : Bool → ℕ
bit b = if b then 1 else 0

-- A count changes by what the written row changes.
pub count-update_user :
    (p : User → Bool) (f : User → User) (id : Text) (users : List User) (u : User)
    → find_user id users ≡ some u
    → count p (update_user id f users) + bit (p u) ≡ count p users + bit (p (f u))
unfolding find_user update_user
count-update_user p f id [] u h = cc
count-update_user p f id (v ∷ rest) u h = ground (arith, count-update_user p f id rest u)

pub find_user-update_self :
    (f : User → User) (id : Text) (users : List User) (u : User)
    → find_user id users ≡ some u
    → (f u).id ≡ u.id
    → find_user id (update_user id f users) ≡ some (f u)
unfolding find_user update_user
find_user-update_self f id [] u h k = cc
find_user-update_self f id (v ∷ rest) u h k = ground (arith, find_user-update_self f id rest u)

-- The row that is found has the id that was asked for.
pub id-find_user :
    (id : Text) (users : List User) (u : User) → find_user id users ≡ some u → u.id ≡ id
unfolding find_user
id-find_user id [] u h = cc
id-find_user id (v ∷ rest) u h = ground (arith, eq_text_iff v.id id, id-find_user id rest u)
