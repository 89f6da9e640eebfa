-- ===== src/Ingest/Store/Frame.antt =====
-- What the statements leave alone.
use devsignal.Prelude.{ℕ, ◌≡◌, refl, false, none, some, Option, ◌∷◌, arith}
use devsignal.Prelude.Text.{Text}
use devsignal.Prelude.Search.{any}
use devsignal.Ingest.Rows.{Company}
use devsignal.Ingest.Store.{
  Store, is_taken, LinkParams, new_source_row, insert_source_row, upsert_found, upsert_company,
}

upsert_found_keeps :
    (fold : Text → Text) (domain name : Text) (st : Store) (c : Option Company)
    → ((upsert_found fold domain name st c).0.opportunities ≡ st.opportunities)
      × ((upsert_found fold domain name st c).0.source_rows ≡ st.source_rows)
unfolding upsert_found
upsert_found_keeps fold domain name st none = (refl, refl)
upsert_found_keeps fold domain name st (some c) = (refl, refl)

pub upsert_company_keeps :
    (fold : Text → Text) (domain name : Text) (st : Store)
    → ((upsert_company fold domain name st).0.opportunities ≡ st.opportunities)
      × ((upsert_company fold domain name st).0.source_rows ≡ st.source_rows)
unfolding upsert_company
upsert_company_keeps fold domain name st = upsert_found_keeps fold domain name st _

-- An insert that the indexes let through.
pub insert_source_row-some :
    (p : LinkParams) (now : ℕ) (st st' : Store)
    → insert_source_row p now st ≡ some st'
    → (any (is_taken p) st.source_rows ≡ false)
      × (st'.opportunities ≡ st.opportunities)
      × (st'.source_rows ≡ new_source_row p st.next_id now ∷ st.source_rows)
unfolding insert_source_row
insert_source_row-some p now st st' h = ground arith
