-- ===== src/Lib.antt =====
-- Verification of the commerce core of e-commerce-be: vouchers, inventory, orders, payments by bank
-- transfer, and internal delivery.
--
-- The program is a set of Go modules over one PostgreSQL database. A handler calls the service of a
-- module, the service checks the request and opens a transaction, and its repository runs the
-- statements; an event for other processes is a row of the outbox, written in the same transaction.
-- Orders, payments and shipments meet in that database: fulfilment and delivery both move seller
-- orders, the webhook and the settlement both mark payments paid, and cancellation gives the stock
-- back that the inventory keeps.
--
-- Files, and the code they are about (paths from the root of the repository):
--   Shared      errors and results of internal/modules/shared/repository.go
--   Text, Words strings: as code points where characters matter, else as numbers
--   Models      the rows, internal/models/models.go and driver.go
--   Store       the database as one record of tables, transactions, inserts with their CHECK and
--               UNIQUE clauses (internal/database/migrations), Admin, internal/outbox/enqueue.go
--   Directory   the seller service behind shared.SellerDirectory, a parameter
--   Voucher     internal/modules/voucher: Calculate and the allocation (Voucher), Normalize and
--               Validate (Voucher/Code), the pattern of a code
--               (Voucher/Pattern), Redeem, Create and SetActive (Voucher/Offers), Preview
--               (Voucher/Preview)
--   Inventory   internal/modules/catalog/inventory.go, and the ledger of stock movements
--   Cart        internal/modules/cart
--   Order       internal/modules/order: Fulfill (Order/Fulfill), Cancel (Order/Cancel), checkout
--               (Order/Checkout), Detail (Order/Detail), histories of calls (Order/Lifecycle), and
--               of checkouts with coupons (Order/Checkout/Redeemed)
--   Payment     internal/modules/payment: the codes of sepay.go (Payment/Sepay), Receive of
--               service.go (Payment/Receive)
--   Shipping    internal/modules/shipping: drivers (Shipping/Drivers), the statements
--               (Shipping/Rows), Create and Assign (Shipping/Create), Update and Settle
--               (Shipping/Progress), Detail (Shipping/View)
--   Chat        internal/modules/chat: Open, Send and notify (Chat), Read, Typing and Messages
--               (Chat/Reads), the numbering (Chat/Log), the log that Send implements
--               (Chat/Append), histories (Chat/History) and pages (Chat/Pages)
--   Auth        internal/modules/auth and internal/auth: accounts, tokens and passwords (Auth), what
--               stays gone from Redis (Auth/Sessions), histories (Auth/Once), passwords that open
--               an account (Auth/Passwords)
--   Notification internal/modules/notification and internal/events: Handle (Notification), the loops
--               of the consumer (Notification/Consumer), what is settled, that the loops end, and one
--               notification per event (Notification/Settled, Finishes, Unique)
--   Recommendation internal/modules/recommendation/service.go: recommend, and the cards it shows
--               (Recommendation/Good)
--   Seller      internal/modules/seller: Create, Update, SetMember, SetAsset and Status (Seller), the
--               rows of owners (Seller/Owned), histories of calls (Seller/History)
--   Review      internal/modules/review: Create and Hide (Review), one review per item (Review/Once)
--   Grpc        internal/grpcutil/errors.go
--   Tx          a transaction over the tables of one database; Text/Utf8 decodes bytes
--   Tests       concrete runs
--
-- How the code is modelled. A call of a repository is a function from the state of the database to
-- a result with the next state. An error has no state, since its transaction is rolled back. Each
-- SQL or GORM statement is a query or an update on the list of rows of its table. An int64 is an
-- integer, wrapped to 64 bits after each operation (add64, sub64, mul64, quot64); the allocation of
-- a discount multiplies exact integers, as big.Int does. A uuid is a number, 0 is uuid.Nil, and a
-- fresh one is the next number of the state. Loops over slices and rows are recursion on the list,
-- so no fuel is needed; the retries of the consumer are recursion on the list of what the servers do,
-- of which Notification.Finishes.process_message_finishes says when it is long enough.
--
-- Parameters: the seller directory; the clock, as the argument `now`; how strings.ToUpper and
-- strings.EqualFold act on a character (`upper_other` beyond ASCII, `fold`); the tracking number; in Auth, what bcrypt, the JWT package, SHA-256 and the mail
-- server give; in Recommendation, the order by score and what Redis and the search give; in Chat, the user and seller services and the count of requests in Redis.
--
-- Not modelled. Transactions run one after another: lock waits and interleavings of uncommitted
-- transactions are left to the row locks that the code takes. Errors of the driver or the connection
-- end a call as the errors here do. The paged listings, the creation times they are sorted by, and
-- the JSON of payloads are left out; so are the HTTP layer, the generated gRPC code, the other
-- services (assistant, search) and the HMAC of Config.Verify. A failure
-- of Redis ends a call of Auth as an error of its own, without a key set or taken.
pub mod Prelude
pub mod Shared
pub mod Text
pub mod Tx
pub mod Words
pub mod Models
pub mod Store
pub mod Directory
pub mod Cart
pub mod Voucher
pub mod Inventory
pub mod Order
pub mod Payment
pub mod Shipping
pub mod Chat
pub mod Auth
pub mod Notification
pub mod Grpc
pub mod Review
pub mod Seller
pub mod Recommendation
pub mod Tests
