-- ===== src/Alerts/Count.antt =====
-- How many rows of a table pass a test, and what the two unique indexes say of it.
use c4isr_systems.Prelude.{ℕ, ◌+◌, String, ◌≡◌, refl, Bool, true, false, none, some, [], ◌∷◌, arith}
use c4isr_systems.Platform.Table.{Table, find, put}
use c4isr_systems.Alerts.{Alert}
use c4isr_systems.Alerts.Store.{any_row, newest}

abbrev pub bit : Bool → ℕ
bit true = 1
bit false = 0

unfoldable pub count : (Alert → Bool) → Table Alert → ℕ
count p [] = 0
count p ((k, a) ∷ t) = bit (p a) + count p t

pub count_no_row : (p : Alert → Bool) (t : Table Alert) → any_row p t ≡ false → count p t ≡ 0
unfolding any_row count
count_no_row p [] h = refl
count_no_row p ((k, a) ∷ t) h = ground (arith, count_no_row p t)

pub count-put_new :
    (p : Alert → Bool) (k : String) (r : Alert) (t : Table Alert)
    → find k t ≡ none
    → count p (put k r t) ≡ count p t + bit (p r)
unfolding find put count
count-put_new p k r [] h = ground arith
count-put_new p k r ((j, q) ∷ t) h = ground (arith, count-put_new p k r t)

pub count-put_old :
    (p : Alert → Bool) (k : String) (r q : Alert) (t : Table Alert)
    → find k t ≡ some q
    → count p (put k r t) + bit (p q) ≡ count p t + bit (p r)
unfolding find put count
count-put_old p k r q [] h = cc
count-put_old p k r q ((j, s) ∷ t) h = ground (arith, count-put_old p k r q t)

-- Where the look-up finds none, there is none.
pub newest-none : (q : Alert → Bool) (t : Table Alert) → newest q t ≡ none → any_row q t ≡ false
unfolding any_row newest
newest-none q [] h = refl
newest-none q ((k, a) ∷ t) h = ground (arith, newest-none q t)

pub any_row_weaker :
    (p q : Alert → Bool)
    → ((a : Alert) → p a ≡ true → q a ≡ true)
    → (t : Table Alert) → any_row p t ≡ true
    → any_row q t ≡ true
unfolding any_row
any_row_weaker p q imp [] h = h
any_row_weaker p q imp ((k, a) ∷ t) h = ground (arith, any_row_weaker p q imp t, imp a)

pub any_row-put :
    (p : Alert → Bool) (k : String) (r : Alert) (t : Table Alert)
    → p r ≡ true
    → any_row p (put k r t) ≡ true
unfolding any_row put
any_row-put p k r [] h = ground arith
any_row-put p k r ((j, q) ∷ t) h = ground (arith, any_row-put p k r t)
