-- ===== src/Lpass/Listing/Tests.antt =====
-- The theorems on the listing of src/lpass/cli.rs at an item whose name looks like the end of a line.
use lastpass_ssh_agent.Prelude.{◌≡◌, refl, [], ◌∷◌, arith, codes}
use lastpass_ssh_agent.Config.{is_item_id}
use lastpass_ssh_agent.Lpass.{ItemSummary}
use lastpass_ssh_agent.Lpass.Listing.{parse_listing, parse_listing-printed, printed}

abbrev item : ItemSummary
item = record { id = codes "42"; name = codes "Servers/web [id: 7]" }

parse_listing-printed_example : parse_listing (printed (item ∷ [])) ≡ item ∷ []
unfolding is_item_id
parse_listing-printed_example = parse_listing-printed (item ∷ []) ((refl, omega arith), tt)
