-- ===== src/Words.antt =====
-- The string literals that the program compares: statuses, methods, carriers, roles and kinds.
use e_commerce_be.Shared.{Word}

abbrev pub no_text : Word
no_text = 0

-- Statuses of orders, seller orders, payments, shipments, drivers, shops, receipts and events.
abbrev pub pending : Word
pending = 1

abbrev pub confirmed : Word
confirmed = 2

abbrev pub shipping : Word
shipping = 3

abbrev pub delivered : Word
delivered = 4

abbrev pub cancelled : Word
cancelled = 5

abbrev pub processing : Word
processing = 6

abbrev pub paid : Word
paid = 7

abbrev pub assigned : Word
assigned = 8

abbrev pub accepted : Word
accepted = 9

abbrev pub picked_up : Word
picked_up = 10

abbrev pub delivering : Word
delivering = 11

abbrev pub failed : Word
failed = 12

abbrev pub returned : Word
returned = 13

abbrev pub approved : Word
approved = 14

abbrev pub rejected : Word
rejected = 15

abbrev pub suspended : Word
suspended = 16

abbrev pub published : Word
published = 17

abbrev pub unmatched : Word
unmatched = 18

abbrev pub ignored : Word
ignored = 19

abbrev pub requires_review : Word
requires_review = 20

abbrev pub applied : Word
applied = 21

-- Payment methods, carriers and coupon types.
abbrev pub cod : Word
cod = 30

abbrev pub sepay : Word
sepay = 31

abbrev pub internal : Word
internal = 32

abbrev pub fixed : Word
fixed = 33

abbrev pub percent : Word
percent = 34

abbrev pub vnd : Word
vnd = 35

-- Directions of a bank transfer.
abbrev pub incoming : Word
incoming = 40

abbrev pub outgoing : Word
outgoing = 41

-- Roles of a member of a shop.
abbrev pub owner : Word
owner = 50

abbrev pub manager : Word
manager = 51

abbrev pub staff : Word
staff = 52

-- Kinds of inventory movement.
abbrev pub sale : Word
sale = 60

abbrev pub cancellation : Word
cancellation = 61

abbrev pub adjustment : Word
adjustment = 62

-- Aggregates and kinds of the outbox events.
abbrev pub order_created : Word
order_created = 70

abbrev pub payment_succeeded : Word
payment_succeeded = 71

abbrev pub order_status_changed : Word
order_status_changed = 72

abbrev pub payment_reconciliation_required : Word
payment_reconciliation_required = 73

abbrev pub shipment_status_changed : Word
shipment_status_changed = 74

abbrev pub inventory_changed : Word
inventory_changed = 75

abbrev pub of_order : Word
of_order = 80

abbrev pub of_seller_order : Word
of_seller_order = 81

abbrev pub of_payment : Word
of_payment = 82

abbrev pub of_payment_webhook : Word
of_payment_webhook = 83

abbrev pub of_shipment : Word
of_shipment = 84

abbrev pub of_variant : Word
of_variant = 85

abbrev pub admin : Word
admin = 53

abbrev pub driver : Word
driver = 54

abbrev pub chat_message : Word
chat_message = 86

abbrev pub chat_read : Word
chat_read = 87

abbrev pub chat_typing : Word
chat_typing = 88

abbrev pub customer : Word
customer = 89

abbrev pub access_token : Word
access_token = 90

abbrev pub refresh_token : Word
refresh_token = 91

abbrev pub service_token : Word
service_token = 92

abbrev pub product_search_updated : Word
product_search_updated = 93

abbrev pub review_search_updated : Word
review_search_updated = 94

abbrev pub seller_status_changed : Word
seller_status_changed = 95

abbrev pub seller_search_updated : Word
seller_search_updated = 96

abbrev pub of_shop : Word
of_shop = 97

abbrev pub seller_updated : Word
seller_updated = 98

abbrev pub seller_member_updated : Word
seller_member_updated = 99

abbrev pub logo_url : Word
logo_url = 100

abbrev pub banner_url : Word
banner_url = 101

abbrev pub hidden : Word
hidden = 102
