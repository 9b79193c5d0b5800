-- ===== src/Domain/PdType.antt =====
-- src/domain/pd_type.rs: a type of personal data is an open text identifier.
use alfavibe_hack.Prelude.{Text, utf8}

abbrev pub PdType : Type 0
PdType = Text

abbrev pub fio : PdType
fio = utf8 "FIO"

abbrev pub passport : PdType
passport = utf8 "PASSPORT"

abbrev pub address : PdType
address = utf8 "ADDRESS"

abbrev pub addr_country : PdType
addr_country = utf8 "ADDR_COUNTRY"

abbrev pub addr_index : PdType
addr_index = utf8 "ADDR_INDEX"

abbrev pub addr_region : PdType
addr_region = utf8 "ADDR_REGION"

abbrev pub addr_city : PdType
addr_city = utf8 "ADDR_CITY"

abbrev pub addr_street : PdType
addr_street = utf8 "ADDR_STREET"

abbrev pub addr_house : PdType
addr_house = utf8 "ADDR_HOUSE"

abbrev pub addr_flat : PdType
addr_flat = utf8 "ADDR_FLAT"

abbrev pub phone : PdType
phone = utf8 "PHONE"

abbrev pub inn : PdType
inn = utf8 "INN"

abbrev pub card_number : PdType
card_number = utf8 "CARD_NUMBER"

abbrev pub cvv : PdType
cvv = utf8 "CVV"

abbrev pub pin : PdType
pin = utf8 "PIN"

abbrev pub card_holder : PdType
card_holder = utf8 "CARD_HOLDER"

abbrev pub snils : PdType
snils = utf8 "SNILS"

abbrev pub org_inn : PdType
org_inn = utf8 "ORG_INN"

abbrev pub birth_date : PdType
birth_date = utf8 "BIRTH_DATE"

abbrev pub birth_place : PdType
birth_place = utf8 "BIRTH_PLACE"

abbrev pub citizenship : PdType
citizenship = utf8 "CITIZENSHIP"

abbrev pub passport_issuer : PdType
passport_issuer = utf8 "PASSPORT_ISSUER"

abbrev pub division_code : PdType
division_code = utf8 "DIVISION_CODE"

abbrev pub passport_issue_date : PdType
passport_issue_date = utf8 "PASSPORT_ISSUE_DATE"

abbrev pub driver_license : PdType
driver_license = utf8 "DRIVER_LICENSE"

abbrev pub email : PdType
email = utf8 "EMAIL"

abbrev pub date : PdType
date = utf8 "DATE"
