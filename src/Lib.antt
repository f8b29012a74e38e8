-- ===== src/Lib.antt =====
-- PlayHub: the backend of a booking platform for sports venues (a NestJS service over Prisma and
-- PostgreSQL, backend/). This library models the services that hold its money and its calendar, and
-- proves what makes them correct.
--
-- The parts, and how they interact. A customer asks for the free slots of a facility (Availability),
-- which takes the opening hours of the venue less the blocks and the bookings, as arithmetic on
-- intervals of time (Interval), and quotes each slot (Pricing). A booking (Bookings) is created
-- pending if no pending or confirmed booking of its facility overlaps it; a payment (Payments)
-- confirms it when it is captured by the checkout, by a webhook of the provider or by
-- reconciliation; and what is captured or refunded is recorded in a ledger of double entries, with
-- commissions, settlements and payouts to the partner (Finance). Events of the providers that come
-- through the queue take another way to both (Webhooks). Customers collect points (Loyalty), use
-- coupons and buy memberships (Promotions), and open disputes, which end in a refund of Payments, in
-- points of Loyalty, or in neither (Support).
--
-- The files.
--   Common        the Boolean tests, lists, exceptions as results, signed integers; Common/Database
--                 is the part of the Prisma client that the services use, and
--                 Common/ListDatabase an instance for the tests.
--   Interval      backend/src/common/utils/time-interval.util.ts: `new_interval` is the constructor,
--                 `subtract_many` is subtractMany, `merge` is merge with its sort and its loop.
--   Calendar      what the services use of the calendar library, as a record `Zone` with one law;
--                 Calendar/Utc is an instance for the tests.
--   Pricing       backend/src/availability/pricing.service.ts: `calculate_price` is calculatePrice,
--                 with the query `rules_for`, the loop `price_from` and `find_best_rule`.
--   Schema        the shared tables and enums of backend/prisma/schema.prisma.
--   Availability  backend/src/availability/availability.service.ts: `get_availability`.
--   Bookings      backend/src/bookings/bookings.service.ts and qr.service.ts: `create`, `cancel`,
--                 `reschedule`, `accept`, `reject`, `check_in`, `no_show_booking` (noShow),
--                 `complete` and `get_qr_pass`; Bookings/History serves any sequence of them.
--   Payments      backend/src/payments/payments.service.ts: `create_order`, `verify_payment`,
--                 `handle_webhook` with `record_webhook_event`, `reconcile_payment`,
--                 `initiate_refund`. A provider is a record of functions.
--   Finance       backend/src/finance/finance.service.ts, payout.service.ts and
--                 settlement.service.ts: `record_payment`, `record_refund`, `record_adjustment`,
--                 `initiate_payout`, `complete_payout`, `fail_payout`, `create_settlement`;
--                 Finance/History serves any sequence of them. Finance/Reconciliation is
--                 reconciliation.service.ts, `run_reconciliation`, and Finance/Listener is
--                 listeners/finance-events.listener.ts.
--   Webhooks      backend/src/webhooks/webhooks.service.ts: `receive_webhook`, the worker
--                 `process_webhook_event` with `process_captured` and `process_refund`, and
--                 `retry_webhook_event`; Webhooks/History serves any sequence of them, and
--                 Webhooks/Received is about the signatures of what is stored.
--   Loyalty       backend/src/loyalty/loyalty.service.ts: `get_or_create_account`, `earn_points`,
--                 `redeem_points`, and in Loyalty/Referrals `get_or_create_referral_code`,
--                 `apply_referral_code` and `qualify_referral`; Loyalty/History serves any sequence
--                 of them, with fresh identifiers from a `Bank`.
--   Promotions    backend/src/promotions/coupons.service.ts: `create_coupon`, `validate_coupon`,
--                 `record_redemption`; Promotions/Memberships is
--                 backend/src/memberships/memberships.service.ts: `create_plan`,
--                 `purchase_membership`, `active_membership` (getActiveCustomerMembership).
--   Support       backend/src/support/support.service.ts: `create_ticket`, `get_ticket_details`,
--                 `add_message`, `update_ticket_status`; Support/Disputes is disputes.service.ts:
--                 `create_dispute`, `get_dispute_by_id`, `partner_response`, `resolve_dispute`;
--                 Support/History serves any sequence of them, over Payments and Loyalty.
--   Auth          backend/src/auth/auth.service.ts: `register`, `login`, `refresh`, `logout`,
--                 `generate_tokens`; the passwords' hashes and the tokens are a record `Crypto`.
--   Communication backend/src/communication/communication.service.ts: `send_notification` with
--                 `dispatch` and `log_skipped`, and in Communication/Devices `register_device`,
--                 `unregister_device` and `update_preference`.
--
-- How the code is read. A table is the list of its rows, and a service takes the tables that it
-- touches and returns them as they are afterwards, or an exception, which leaves them as they were,
-- as a failed transaction does; where the code writes outside a transaction (the worker of Webhooks,
-- the resolutions of Support, the login of Auth), the tables are returned beside the exception. A
-- request runs alone, as under the serializable isolation that the code asks for where it writes
-- bookings and payments. Which row a query without an order finds, and how rows of equal rank are
-- ordered, is left to the client: these are parameters with laws. The
-- clock, new identifiers and random texts are arguments. Moments are milliseconds, times of the day
-- texts of the form HH:mm, Decimal columns whole paise; a price is counted in units of 1/3,600,000
-- paise, so that the arithmetic of the quote, and that of commissions, is exact where the code rounds
-- floating-point numbers, whose sums may differ from it in their last place. The share of a coupon by
-- percentage is rounded as the doubles of the code do, which are a record `Doubles` with a law; and
-- the date at the end of a membership is a record `Dates`, of a duration that may be negative.
-- Priorities of rules are natural numbers. Identifiers and keys are numbers that are only compared.
-- Events are kept with their identifiers, the newest first; metadata are kept where code reads them.
--
-- Fuel. The loop of a quote gets (end - start) / 15 minutes + 2 rounds, since each round advances by
-- 15 minutes or ends; the loop of the slots in an interval gets end - start + 2, since each slot is at
-- least a millisecond long. Running out of either would be an exception of its own; the theorems on
-- both show that it does not occur.
--
-- Not modelled: the providers' own code, chats, in-app notifications,
-- listings and profiles, administration and analytics, the guards of requests, the audit log, paged
-- listings, and the mobile application, which hold no state that the services above depend on.
pub mod Common
pub mod Interval
pub mod Calendar
pub mod Pricing
pub mod Schema
pub mod Availability
pub mod Bookings
pub mod Payments
pub mod Finance
pub mod Webhooks
pub mod Loyalty
pub mod Promotions
pub mod Support
pub mod Auth
pub mod Communication
