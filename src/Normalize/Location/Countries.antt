-- ===== src/Normalize/Location/Countries.antt =====
-- internal/normalize/location.go: the countries and their spellings.
use devsignal.Prelude.{Option, none, some, List, [], ◌∷◌, ◌++◌, if◌then◌else◌, bytes}
use devsignal.Prelude.Text.{Text, text_eq}

-- An entry of the map `countries`.
pub record Spelling : Type 0 where
  pub name : Text
  pub iso : Text

abbrev spelled : Text → Text → Spelling
spelled name iso = record { name = name; iso = iso }

abbrev pub countries : List Spelling
countries =
    spelled (bytes "united states") (bytes "US")
    ∷ spelled (bytes "usa") (bytes "US")
    ∷ spelled (bytes "us") (bytes "US")
    ∷ spelled (bytes "u.s.") (bytes "US")
    ∷ spelled (bytes "u.s.a.") (bytes "US")
    ∷ spelled (bytes "america") (bytes "US")
    ∷ spelled (bytes "united kingdom") (bytes "GB")
    ∷ spelled (bytes "uk") (bytes "GB")
    ∷ spelled (bytes "u.k.") (bytes "GB")
    ∷ spelled (bytes "great britain") (bytes "GB")
    ∷ spelled (bytes "england") (bytes "GB")
    ∷ spelled (bytes "scotland") (bytes "GB")
    ∷ spelled (bytes "wales") (bytes "GB")
    ∷ spelled (bytes "northern ireland") (bytes "GB")
    ∷ spelled (bytes "canada") (bytes "CA")
    ∷ spelled (bytes "mexico") (bytes "MX")
    ∷ spelled (bytes "brazil") (bytes "BR")
    ∷ spelled (bytes "argentina") (bytes "AR")
    ∷ spelled (bytes "chile") (bytes "CL")
    ∷ spelled (bytes "colombia") (bytes "CO")
    ∷ spelled (bytes "peru") (bytes "PE")
    ∷ spelled (bytes "uruguay") (bytes "UY")
    ∷ spelled (bytes "costa rica") (bytes "CR")
    ∷ spelled (bytes "germany") (bytes "DE")
    ∷ spelled (bytes "france") (bytes "FR")
    ∷ spelled (bytes "spain") (bytes "ES")
    ∷ spelled (bytes "portugal") (bytes "PT")
    ∷ spelled (bytes "italy") (bytes "IT")
    ∷ spelled (bytes "netherlands") (bytes "NL")
    ∷ spelled (bytes "the netherlands") (bytes "NL")
    ∷ spelled (bytes "belgium") (bytes "BE")
    ∷ spelled (bytes "luxembourg") (bytes "LU")
    ∷ spelled (bytes "ireland") (bytes "IE")
    ∷ spelled (bytes "denmark") (bytes "DK")
    ∷ spelled (bytes "sweden") (bytes "SE")
    ∷ spelled (bytes "norway") (bytes "NO")
    ∷ spelled (bytes "finland") (bytes "FI")
    ∷ spelled (bytes "iceland") (bytes "IS")
    ∷ spelled (bytes "poland") (bytes "PL")
    ∷ spelled (bytes "czechia") (bytes "CZ")
    ∷ spelled (bytes "czech republic") (bytes "CZ")
    ∷ spelled (bytes "slovakia") (bytes "SK")
    ∷ spelled (bytes "hungary") (bytes "HU")
    ∷ spelled (bytes "romania") (bytes "RO")
    ∷ spelled (bytes "bulgaria") (bytes "BG")
    ∷ spelled (bytes "greece") (bytes "GR")
    ∷ spelled (bytes "croatia") (bytes "HR")
    ∷ spelled (bytes "slovenia") (bytes "SI")
    ∷ spelled (bytes "serbia") (bytes "RS")
    ∷ spelled (bytes "austria") (bytes "AT")
    ∷ spelled (bytes "switzerland") (bytes "CH")
    ∷ spelled (bytes "estonia") (bytes "EE")
    ∷ spelled (bytes "latvia") (bytes "LV")
    ∷ spelled (bytes "lithuania") (bytes "LT")
    ∷ spelled (bytes "ukraine") (bytes "UA")
    ∷ spelled (bytes "turkey") (bytes "TR")
    ∷ spelled (bytes "t" ++ (0xfc ∷ bytes "rkiye")) (bytes "TR")
    ∷ spelled (bytes "israel") (bytes "IL")
    ∷ spelled (bytes "united arab emirates") (bytes "AE")
    ∷ spelled (bytes "uae") (bytes "AE")
    ∷ spelled (bytes "u.a.e.") (bytes "AE")
    ∷ spelled (bytes "saudi arabia") (bytes "SA")
    ∷ spelled (bytes "qatar") (bytes "QA")
    ∷ spelled (bytes "egypt") (bytes "EG")
    ∷ spelled (bytes "south africa") (bytes "ZA")
    ∷ spelled (bytes "kenya") (bytes "KE")
    ∷ spelled (bytes "nigeria") (bytes "NG")
    ∷ spelled (bytes "morocco") (bytes "MA")
    ∷ spelled (bytes "india") (bytes "IN")
    ∷ spelled (bytes "pakistan") (bytes "PK")
    ∷ spelled (bytes "bangladesh") (bytes "BD")
    ∷ spelled (bytes "sri lanka") (bytes "LK")
    ∷ spelled (bytes "china") (bytes "CN")
    ∷ spelled (bytes "japan") (bytes "JP")
    ∷ spelled (bytes "south korea") (bytes "KR")
    ∷ spelled (bytes "korea") (bytes "KR")
    ∷ spelled (bytes "singapore") (bytes "SG")
    ∷ spelled (bytes "malaysia") (bytes "MY")
    ∷ spelled (bytes "indonesia") (bytes "ID")
    ∷ spelled (bytes "thailand") (bytes "TH")
    ∷ spelled (bytes "vietnam") (bytes "VN")
    ∷ spelled (bytes "philippines") (bytes "PH")
    ∷ spelled (bytes "taiwan") (bytes "TW")
    ∷ spelled (bytes "hong kong") (bytes "HK")
    ∷ spelled (bytes "australia") (bytes "AU")
    ∷ spelled (bytes "new zealand") (bytes "NZ")
    ∷ []

unfoldable pub country_of : Text → List Spelling → Option Text
country_of frag [] = none
country_of frag (s ∷ ss) = if text_eq s.name frag then some s.iso else country_of frag ss
