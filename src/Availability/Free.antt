-- ===== src/Availability/Free.antt =====
-- What the slots of backend/src/availability/availability.service.ts keep clear of: every moment
-- of a slot is within the operating hours, and no block or booking of the day holds it.
use playhub_playbooking.Common.{
  >>=-eq-ok, All, All-append, All-map_of, Bool, List, Result, [], arith, collect, filter,
  if◌then◌else◌, leb, not, ok, subst, true, ℕ, ◌&&◌, ◌++◌, ◌<◌, ◌>>=◌, ◌∷◌, ◌≡◌, ◌≤◌,
}
use playhub_playbooking.Availability.{
  block_matches, booking_matches, day_interval, hour_of, minute_of, opening_interval,
  opening_intervals, recurring_interval, taken_intervals, utc_hours, utc_minutes,
}
use playhub_playbooking.Calendar.{Zone, day_eq}
use playhub_playbooking.Interval.{IsProper, TimeInterval, new_interval}
use playhub_playbooking.Interval.Points.{covers, covers-append}
use playhub_playbooking.Schema.{AvailabilityBlock, Booking, OperatingHours}

new_interval-ok :
    (a b : ℕ) (i : TimeInterval) → new_interval a b ≡ ok i → (a ≡ i.start) × (b ≡ i.end) × (a < b)
unfolding new_interval
new_interval-ok a b i e = ground arith

collect-All :
    {A B : Type 0} (P : B → Type 0) (f : A → Result B)
    → ((a : A) (b : B) → f a ≡ ok b → P b)
    → (xs : List A) (ys : List B) → collect f xs ≡ ok ys
    → All P ys
collect-All P f h [] ys e = let nothing : [] ≡ ys = cc in subst (All P) nothing tt
collect-All P f h (x ∷ xs) ys e =
    let (b, eb, e') = >>=-eq-ok (f x) (λ b. collect f xs >>= λ bs. ok (b ∷ bs)) e in
    let (bs, ebs, e'') = >>=-eq-ok (collect f xs) (λ bs. ok (b ∷ bs)) e' in
    let same : b ∷ bs ≡ ys = cc in subst (All P) same (h x b eb, collect-All P f h xs bs ebs)

day_interval-IsProper :
    (zone : Zone) (a b : ℕ) (i : TimeInterval) → day_interval zone a b ≡ ok i → IsProper i
unfolding day_interval
day_interval-IsProper zone a b i e =
    let (p, q, h) = new_interval-ok a (if leb b a then zone.next_day b else b) i e in ground arith

new_interval-IsProper : (a b : ℕ) (i : TimeInterval) → new_interval a b ≡ ok i → IsProper i
new_interval-IsProper a b i e = let (p, q, h) = new_interval-ok a b i e in omega arith

recurring_interval-IsProper :
    (zone : Zone) (date : ℕ) (b : AvailabilityBlock) (i : TimeInterval)
    → recurring_interval zone date b ≡ ok i
    → IsProper i
unfolding recurring_interval
recurring_interval-IsProper zone date b i e =
    day_interval-IsProper zone
      (zone.set_time date (utc_hours b.start_time) (utc_minutes b.start_time))
      (zone.set_time date (utc_hours b.end_time) (utc_minutes b.end_time)) i e

pub opening_intervals-IsProper :
    (zone : Zone) (date : ℕ) (hours : List OperatingHours) (is : List TimeInterval)
    → opening_intervals zone date hours ≡ ok is
    → All IsProper is
unfolding opening_intervals opening_interval
opening_intervals-IsProper zone date hours is e =
    collect-All IsProper (opening_interval zone date)
      (λ h i k.
        day_interval-IsProper zone
          (zone.set_time date (hour_of h.opening_time) (minute_of h.opening_time))
          (zone.set_time date (hour_of h.closing_time) (minute_of h.closing_time)) i k)
      (filter (λ h. day_eq h.day_of_week (zone.weekday date) && not h.is_closed) hours) is e

abbrev fixed_interval : AvailabilityBlock → Result TimeInterval
fixed_interval b = new_interval b.start_time b.end_time

abbrev booked_interval : Booking → Result TimeInterval
booked_interval b = new_interval b.start_time b.end_time

-- The three parts of what is taken.
record Parts (zone : Zone) (date facility_id : ℕ) (blocks : List AvailabilityBlock)
    (bookings : List Booking) (taken : List TimeInterval) : Type 0 where
  recurring : List TimeInterval
  fixed : List TimeInterval
  booked : List TimeInterval
  all : taken ≡ recurring ++ (fixed ++ booked)
  recurring_proper : All IsProper recurring
  fixed_proper : All IsProper fixed
  from_bookings :
      collect booked_interval
        (filter (booking_matches facility_id date (zone.next_day date)) bookings)
      ≡ ok booked

taken-Parts :
    (zone : Zone) (date facility_id : ℕ) (blocks : List AvailabilityBlock) (bookings : List Booking)
    (taken : List TimeInterval)
    → taken_intervals zone date facility_id blocks bookings ≡ ok taken
    → Parts zone date facility_id blocks bookings taken
unfolding taken_intervals
taken-Parts zone date facility_id blocks bookings taken e =
    let here =
      filter (block_matches facility_id date (zone.next_day date) (zone.weekday date)) blocks in
    let rs = collect (recurring_interval zone date) (filter (λ b. b.is_recurring) here) in
    let fs = collect fixed_interval (filter (λ b. not b.is_recurring) here) in
    let bs =
      collect booked_interval
        (filter (booking_matches facility_id date (zone.next_day date)) bookings) in
    let (r, er, e1) = >>=-eq-ok rs (λ r. fs >>= λ f. bs >>= λ b. ok (r ++ (f ++ b))) e in
    let (f, ef, e2) = >>=-eq-ok fs (λ f. bs >>= λ b. ok (r ++ (f ++ b))) e1 in
    let (b, eb, e3) = >>=-eq-ok bs (λ b. ok (r ++ (f ++ b))) e2 in
    record {
      recurring = r;
      fixed = f;
      booked = b;
      all = cc;
      recurring_proper =
          collect-All IsProper (recurring_interval zone date)
            (λ x i k. recurring_interval-IsProper zone date x i k)
            (filter (λ x. x.is_recurring) here) r er;
      fixed_proper =
          collect-All IsProper fixed_interval
            (λ x i k. new_interval-IsProper x.start_time x.end_time i k)
            (filter (λ x. not x.is_recurring) here) f ef;
      from_bookings = eb;
    }

pub taken_intervals-IsProper :
    (zone : Zone) (date facility_id : ℕ) (blocks : List AvailabilityBlock) (bookings : List Booking)
    (taken : List TimeInterval)
    → taken_intervals zone date facility_id blocks bookings ≡ ok taken
    → All IsProper taken
taken_intervals-IsProper zone date facility_id blocks bookings taken e =
    let p = taken-Parts zone date facility_id blocks bookings taken e in
    rw p.all (
      All-append IsProper p.recurring (p.fixed ++ p.booked) p.recurring_proper (
        All-append IsProper p.fixed p.booked p.fixed_proper (
          collect-All IsProper booked_interval
            (λ x i k. new_interval-IsProper x.start_time x.end_time i k)
            (filter (booking_matches facility_id date (zone.next_day date)) bookings) p.booked
            p.from_bookings)))

-- Every moment of a booking that the query returns is taken.
abbrev pub IsTaken : (ℕ → Bool) → Booking → Type 0
IsTaken taken b =
    (b.start_time < b.end_time) × ((t : ℕ) → b.start_time ≤ t → t < b.end_time → taken t ≡ true)

booked-IsTaken :
    (bs : List Booking) (is : List TimeInterval)
    → collect booked_interval bs ≡ ok is
    → All (IsTaken (covers is)) bs
booked-IsTaken [] is e = tt
booked-IsTaken (b ∷ bs) is e =
    let (i, ei, e') =
      >>=-eq-ok (booked_interval b) (λ i. collect booked_interval bs >>= λ rest. ok (i ∷ rest)) e in
    let (rest, er, e'') = >>=-eq-ok (collect booked_interval bs) (λ rest. ok (i ∷ rest)) e' in
    let same : i ∷ rest ≡ is = cc in
    let (start, end, proper) = new_interval-ok b.start_time b.end_time i ei in
    subst (λ l. All (IsTaken (covers l)) (b ∷ bs)) same
      (
        (proper, λ t h k. ground arith),
        All-map_of bs (λ x (proper', taken). (proper', λ t h k. ground (arith, taken t h k)))
            (booked-IsTaken bs rest er),
      )

pub taken_intervals-IsTaken :
    (zone : Zone) (date facility_id : ℕ) (blocks : List AvailabilityBlock) (bookings : List Booking)
    (taken : List TimeInterval)
    → taken_intervals zone date facility_id blocks bookings ≡ ok taken
    → All
        (IsTaken (covers taken))
        (filter (booking_matches facility_id date (zone.next_day date)) bookings)
taken_intervals-IsTaken zone date facility_id blocks bookings taken e =
    let p = taken-Parts zone date facility_id blocks bookings taken e in
    let loaded = filter (booking_matches facility_id date (zone.next_day date)) bookings in
    rw p.all (
      All-map_of loaded
        (λ x (proper, h). (
          proper,
          λ t a b. ground (
            arith,
            h t a b,
            covers-append p.recurring (p.fixed ++ p.booked) t,
            covers-append p.fixed p.booked t,
          ),
        ))
        (booked-IsTaken loaded p.booked p.from_bookings))
